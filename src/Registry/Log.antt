-- ===== src/Registry/Log.antt =====
-- What a log says of the list of ca/revocation_db.cpp that it leaves.
use tee_anchor.Prelude.{
  ℕ, suc, ◌+◌, ◌<◌, ◌%◌, ◌^◌, ◌≡◌, refl, ap, sym, subst, ◌∙◌, Bool, true, false, ◌||◌, List, [],
  ◌∷◌, ◌++◌, append_assoc, append-nil, Bytes, bytes_eq, bytes_eq_iff, Bool-cases, inl, inr, arith,
}
use tee_anchor.RevocationDb.{RevocationEntry, RevocationDb}
use tee_anchor.Revoke.{has_serial}
use tee_anchor.Revoke.Keeps.{has_serial-last}
use tee_anchor.Registry.{Event, revocation, publication, apply, replay}

-- How often a CRL was published.
unfoldable pub publications : List Event → ℕ
publications [] = 0
publications (revocation e ∷ log) = publications log
publications (publication ∷ log) = suc (publications log)

-- Whether a log revokes a serial number.
unfoldable pub revokes_serial : Bytes → List Event → Bool
revokes_serial s [] = false
revokes_serial s (revocation e ∷ log) = bytes_eq e.serial_hex s || revokes_serial s log
revokes_serial s (publication ∷ log) = revokes_serial s log

apply-keeps :
    (ev : Event) (db : RevocationDb)
    → (new : List RevocationEntry) × ((apply ev db).entries ≡ db.entries ++ new)
unfolding apply
apply-keeps publication db = ([], sym (append-nil db.entries))
apply-keeps (revocation e) db = elim (Bool-cases (has_serial e.serial_hex db.entries)) [
  | inl old ↦ ([], rw old (sym (append-nil db.entries)))
  | inr new ↦ (e ∷ [], rw new refl)
]

-- No entry is lost, changed or moved: what the log leaves starts with the list that was there.
pub replay-keeps :
    (log : List Event) (db : RevocationDb)
    → (new : List RevocationEntry) × ((replay log db).entries ≡ db.entries ++ new)
unfolding replay
replay-keeps [] db = ([], sym (append-nil db.entries))
replay-keeps (ev ∷ log) db =
    let (old, before) = replay-keeps log db in
    let (new, now) = apply-keeps ev (replay log db) in
    (old ++ new, now ∙ ap (λ es. es ++ new) before ∙ append_assoc db.entries old new)

-- The number counts the publications, in 64 bits.
pub replay-number :
    (log : List Event) (db : RevocationDb)
    → db.crl_number < 2 ^ 64
    → (replay log db).crl_number ≡ (db.crl_number + publications log) % 2 ^ 64
unfolding replay apply publications
replay-number [] db h = omega arith
replay-number (revocation e ∷ log) db h = ground (arith, replay-number log db h)
replay-number (publication ∷ log) db h = omega (arith, replay-number log db h)

has_serial-other :
    (s : Bytes) (es : List RevocationEntry) (e : RevocationEntry)
    → bytes_eq e.serial_hex s ≡ false
    → has_serial s (es ++ (e ∷ [])) ≡ has_serial s es
unfolding has_serial
has_serial-other s [] e h = rw h refl
has_serial-other s (x ∷ es) e h = ground (arith, has_serial-other s es e)

pub has_serial-applied :
    (e : RevocationEntry) (db : RevocationDb)
    → has_serial e.serial_hex (apply (revocation e) db).entries ≡ true
unfolding apply
has_serial-applied e db = elim (Bool-cases (has_serial e.serial_hex db.entries)) [
  | inl old ↦ rw old old
  | inr new ↦ rw new (has_serial-last e db.entries)
]

-- A revocation puts its serial number on the list, and no other.
has_serial-apply :
    (s : Bytes) (e : RevocationEntry) (db : RevocationDb)
    → has_serial s (apply (revocation e) db).entries
      ≡ (has_serial s db.entries || bytes_eq e.serial_hex s)
has_serial-apply s e db = elim (Bool-cases (bytes_eq e.serial_hex s)) [
  | inl same ↦
      subst (λ t. has_serial t (apply (revocation e) db).entries ≡ true)
        ((bytes_eq_iff e.serial_hex s).0 same) (has_serial-applied e db)
      ∙ rw same (sym (or_true (has_serial s db.entries)))
  | inr other ↦ rw other (unchanged other ∙ sym (or_false (has_serial s db.entries)))
]
  where
    or_false : (b : Bool) → (b || false) ≡ b
    or_false true = refl
    or_false false = refl

    or_true : (b : Bool) → (b || true) ≡ true
    or_true true = refl
    or_true false = refl

    unchanged :
        bytes_eq e.serial_hex s ≡ false
        → has_serial s (apply (revocation e) db).entries ≡ has_serial s db.entries
    unchanged other =
        unfold apply in
        elim (Bool-cases (has_serial e.serial_hex db.entries)) [
          | inl old ↦ rw old refl
          | inr new ↦ rw new (has_serial-other s db.entries e other)
        ]

-- Who is on the list is who was on it, and who the log revokes, at whatever time.
pub has_serial-replay :
    (s : Bytes) (log : List Event) (db : RevocationDb)
    → has_serial s (replay log db).entries ≡ (has_serial s db.entries || revokes_serial s log)
unfolding replay revokes_serial
has_serial-replay s [] db = ground arith
has_serial-replay s (revocation e ∷ log) db =
    ground (arith, has_serial-apply s e (replay log db), has_serial-replay s log db)
has_serial-replay s (publication ∷ log) db = unfold apply in has_serial-replay s log db
