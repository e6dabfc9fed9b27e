-- ===== src/Registry/Unordered.antt =====
-- The list of ca/revocation_db.cpp without its order: the number, and what is known of each serial
-- number.
use mathlib.Core.Quot
use mathlib.Core.Quot.{Quot, Quot-set}
use mathlib.Core.List.{Permᴰ}
use mathlib.Core.List.Permᴰ.{nil, cons, swap, trans}
use tee_anchor.Prelude.{
  ok, ok_injective, ◌+◌, ◌%◌, ◌^◌, ◌≡◌, refl, ap, sym, subst, ◌∙◌, false, Option, none, some, List,
  [], ◌∷◌, Bytes, bytes_eq, bytes_eq_iff, Bool-cases, inl, inr, arith,
}
use tee_anchor.RevocationDb.{RevocationEntry, RevocationDb}
use tee_anchor.Registry.{Event, revocation, publication, apply, replay}
use tee_anchor.Registry.Log.{revokes_serial}
use tee_anchor.OpenSsl.{OpenSsl}
use tee_anchor.World.{World}
use tee_anchor.RevocationDb.{load_revocation_db}
use tee_anchor.Revoke.Entry.{HexLaws}
use tee_anchor.Registry.History.{History}
use tee_anchor.Registry.Refines.{Loads, History-Loads}
use tee_anchor.Registry.Known.{
  entry_of, known, entry_of-apply, Same, Same-trans, Same-sym, Same-apply, crl_number-revocation,
  crl_number-publication, entries-publication,
}
use tee_anchor.Registry.Apart.{Apart, Apart-tail, Apart-Perm}

abbrev pub Ledger : Type 0
Ledger = Quot Same

known-swap :
    (s : Bytes) (d e : RevocationEntry) (o : Option RevocationEntry)
    → bytes_eq e.serial_hex d.serial_hex ≡ false
    → known s d (known s e o) ≡ known s e (known s d o)
known-swap s d e (some old) apart = refl
known-swap s d e none apart = elim (Bool-cases (bytes_eq d.serial_hex s)) [
  | inr other ↦ elim (Bool-cases (bytes_eq e.serial_hex s)) [
    | inr other' ↦ rw (other, other') (rw other refl)
    | inl same' ↦ rw (other, same') refl
  ]
  | inl same ↦
      let other' : bytes_eq e.serial_hex s ≡ false =
        subst (λ t. bytes_eq e.serial_hex t ≡ false) ((bytes_eq_iff d.serial_hex s).0 same) apart in
      rw (same, other') (rw same refl)
]

Same-publication :
    (e : RevocationEntry) (db : RevocationDb)
    → Same
        (apply publication (apply (revocation e) db))
        (apply (revocation e) (apply publication db))
Same-publication e db = record {
  number =
      crl_number-publication (apply (revocation e) db)
      ∙ ap (λ n. (n + 1) % 2 ^ 64) (crl_number-revocation e db)
      ∙ sym (crl_number-publication db)
      ∙ sym (crl_number-revocation e (apply publication db));
  entries = λ s.
      ap (entry_of s) (entries-publication (apply (revocation e) db))
      ∙ entry_of-apply s e db
      ∙ sym (ap (λ es. known s e (entry_of s es)) (entries-publication db))
      ∙ sym (entry_of-apply s e (apply publication db));
}

Same-swap :
    (d e : Event) (log : List Event) (db : RevocationDb)
    → Apart (d ∷ e ∷ log)
    → Same (apply d (apply e db)) (apply e (apply d db))
unfolding revokes_serial
Same-swap publication publication log db h = record { number = refl; entries = λ s. refl }
Same-swap publication (revocation e) log db h = Same-publication e db
Same-swap (revocation d) publication log db h = Same-sym _ _ (Same-publication d db)
Same-swap (revocation d) (revocation e) log db (h, hs) = record {
  number =
      crl_number-revocation d (apply (revocation e) db)
      ∙ crl_number-revocation e db
      ∙ sym (crl_number-revocation d db)
      ∙ sym (crl_number-revocation e (apply (revocation d) db));
  entries = λ s.
      entry_of-apply s d (apply (revocation e) db)
      ∙ ap (known s d) (entry_of-apply s e db)
      ∙ known-swap s d e (entry_of s db.entries) (ground arith)
      ∙ sym (ap (known s e) (entry_of-apply s d db))
      ∙ sym (entry_of-apply s e (apply (revocation d) db));
}

Same-Perm :
    (log log' : List Event)
    → Permᴰ log log'
    → Apart log
    → (db : RevocationDb) → Same (replay log db) (replay log' db)
unfolding replay
Same-Perm log log' nil h db = record { number = refl; entries = λ s. refl }
Same-Perm log log' (trans {l₂ = mid} p q) h db =
    Same-trans _ (replay mid db) _ (Same-Perm log mid p h db)
      (Same-Perm mid log' q (Apart-Perm log mid p h) db)
Same-Perm log log' (cons {a = d} {b = e} {l₁ = xs} {l₂ = ys} same p) h db =
    subst (λ x. Same (replay (d ∷ xs) db) (replay (x ∷ ys) db)) same
      (Same-apply d (replay xs db) (replay ys db) (Same-Perm xs ys p (Apart-tail d xs h) db))
Same-Perm log log' (swap {a = d} {b = e} {a' = x} {b' = y} {l = xs} same same') h db =
    subst (λ z. Same (replay (d ∷ e ∷ xs) db) (replay (x ∷ z ∷ xs) db)) same
      (subst (λ z. Same (replay (d ∷ e ∷ xs) db) (replay (z ∷ d ∷ xs) db)) same'
        (Same-swap d e xs (replay xs db) h))

-- An event on a ledger: no order is seen there.
unfoldable pub enter : Event → Ledger → Ledger
enter ev =
    Quot.lift Quot-set (λ db. Quot.mk (apply ev db)) (λ a b h. Quot.sound (Same-apply ev a b h))

unfoldable pub enter_all : List Event → Ledger → Ledger
unfolding enter
enter_all [] l = l
enter_all (ev ∷ log) l = enter ev (enter_all log l)

enter_all-replay :
    (log : List Event) (db : RevocationDb) → enter_all log (Quot.mk db) ≡ Quot.mk (replay log db)
unfolding enter_all replay
enter_all-replay [] db = refl
enter_all-replay (ev ∷ log) db = ap (enter ev) (enter_all-replay log db)

pub enter_all-Perm :
    (log log' : List Event)
    → Permᴰ log log'
    → Apart log
    → (l : Ledger) → enter_all log l ≡ enter_all log' l
enter_all-Perm log log' p apart =
    Quot.ind (λ l. Quot-set _ _)
      λ db.
        enter_all-replay log db
        ∙ Quot.sound (Same-Perm log log' p apart db)
        ∙ sym (enter_all-replay log' db)

-- What the list says is what happened, whatever the order. Take two histories (as `History-Loads` has
-- them, with no save cut off in silence) that start with the same list, on whatever machines, and whose
-- logs have the same events in another order, with no serial number revoked by two of them. Then what
-- the list says after the first, its number and the entry of each serial number, is what entering the
-- events of its log into the list of the start makes of it, and the list of the second says the same.
pub History-Perm :
    (ssl : OpenSsl)
    → HexLaws ssl
    → (path : Bytes) (start start' : World) (db : RevocationDb) → Loads path start db
    → Loads path start' db
    → (log log' : List Event) (w w' : World) → History ssl path start log w
    → History ssl path start' log' w'
    → Permᴰ log log'
    → Apart log
    → (now now' : RevocationDb) → load_revocation_db path w ≡ ok now
    → load_revocation_db path w' ≡ ok now'
    → (◌≡◌ {A = Ledger} (Quot.mk now) (enter_all log (Quot.mk db)))
      × (◌≡◌ {A = Ledger} (Quot.mk now) (Quot.mk now'))
History-Perm ssl laws path start start' db l l' log log' w w' h h' p apart now now' e e' =
    let same = ok_injective (sym e ∙ (History-Loads ssl laws path start db l log w h).loaded) in
    let same' =
      ok_injective (sym e' ∙ (History-Loads ssl laws path start' db l' log' w' h').loaded) in
    let entered : ◌≡◌ {A = Ledger} (Quot.mk now) (enter_all log (Quot.mk db)) =
      ap Quot.mk same ∙ sym (enter_all-replay log db) in
    (
      entered,
      entered
          ∙ enter_all-Perm log log' p apart (Quot.mk db)
          ∙ enter_all-replay log' db
          ∙ sym (ap Quot.mk same'),
    )
