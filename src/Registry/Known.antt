-- ===== src/Registry/Known.antt =====
-- What a list of ca/revocation_db.cpp says of a serial number.
use tee_anchor.Prelude.{
  ◌+◌, ◌%◌, ◌^◌, ◌≡◌, refl, ap, sym, subst, ◌∙◌, true, false, Option, none, some, List, [], ◌∷◌,
  ◌++◌, if◌then◌else◌, Bytes, bytes_eq, bytes_eq_iff, Bool-cases, inl, inr, arith,
}
use tee_anchor.RevocationDb.{RevocationEntry, RevocationDb}
use tee_anchor.Revoke.{has_serial}
use tee_anchor.Registry.{Event, revocation, publication, apply}
use tee_anchor.Registry.Refines.{apply-there, apply-new}

-- The entry of a serial number: the first one, as no later one is added.
unfoldable pub entry_of : Bytes → List RevocationEntry → Option RevocationEntry
entry_of s [] = none
entry_of s (e ∷ es) = if bytes_eq e.serial_hex s then some e else entry_of s es

-- What is known of a serial number after an entry was offered.
abbrev pub known : Bytes → RevocationEntry → Option RevocationEntry → Option RevocationEntry
known s e (some old) = some old
known s e none = if bytes_eq e.serial_hex s then some e else none

entry_of-snoc :
    (s : Bytes) (es : List RevocationEntry) (e : RevocationEntry)
    → entry_of s (es ++ (e ∷ [])) ≡ known s e (entry_of s es)
unfolding entry_of
entry_of-snoc s [] e = refl
entry_of-snoc s (x ∷ es) e = elim (Bool-cases (bytes_eq x.serial_hex s)) [
  | inl same ↦ rw same refl
  | inr other ↦ rw other (entry_of-snoc s es e)
]

entry_of-there :
    (e : RevocationEntry) (s : Bytes) (es : List RevocationEntry)
    → has_serial e.serial_hex es ≡ true
    → entry_of s es ≡ known s e (entry_of s es)
unfolding entry_of has_serial
entry_of-there e s [] h = cc
entry_of-there e s (x ∷ es) h = elim (Bool-cases (bytes_eq x.serial_hex s)) [
  | inl same ↦ rw same refl
  | inr other ↦ elim (Bool-cases (bytes_eq x.serial_hex e.serial_hex)) [
    | inr absent ↦ rw other (entry_of-there e s es (rw absent at h))
    | inl first ↦
        let apart : bytes_eq e.serial_hex s ≡ false =
          subst (λ t. bytes_eq t s ≡ false) ((bytes_eq_iff x.serial_hex e.serial_hex).0 first)
            other in
        rw other (unchanged apart (entry_of s es))
  ]
]
  where
    unchanged : bytes_eq e.serial_hex s ≡ false → (o : Option RevocationEntry) → o ≡ known s e o
    unchanged apart none = rw apart refl
    unchanged apart (some old) = refl

-- A revocation is known of its serial number, unless an earlier one is.
pub entry_of-apply :
    (s : Bytes) (e : RevocationEntry) (db : RevocationDb)
    → entry_of s (apply (revocation e) db).entries ≡ known s e (entry_of s db.entries)
entry_of-apply s e db = elim (Bool-cases (has_serial e.serial_hex db.entries)) [
  | inl old ↦
      ap (λ (d : RevocationDb). entry_of s d.entries) (apply-there e db old)
      ∙ entry_of-there e s db.entries old
  | inr new ↦
      ap (λ (d : RevocationDb). entry_of s d.entries) (apply-new e db new)
      ∙ entry_of-snoc s db.entries e
]

-- Two lists say the same.
pub record Same (a b : RevocationDb) : Type 0 where
  pub number : a.crl_number ≡ b.crl_number
  pub entries : (s : Bytes) → entry_of s a.entries ≡ entry_of s b.entries

pub Same-trans : (a b c : RevocationDb) → Same a b → Same b c → Same a c
Same-trans a b c h k = record {
  number = h.number ∙ k.number;
  entries = λ s. h.entries s ∙ k.entries s;
}

pub crl_number-revocation :
    (e : RevocationEntry) (db : RevocationDb) → (apply (revocation e) db).crl_number ≡ db.crl_number
unfolding apply
crl_number-revocation e db = ground arith

pub crl_number-publication :
    (db : RevocationDb) → (apply publication db).crl_number ≡ (db.crl_number + 1) % 2 ^ 64
unfolding apply
crl_number-publication db = refl

pub entries-publication : (db : RevocationDb) → (apply publication db).entries ≡ db.entries
unfolding apply
entries-publication db = refl

pub Same-sym : (a b : RevocationDb) → Same a b → Same b a
Same-sym a b h = record { number = sym h.number; entries = λ s. sym (h.entries s) }

pub Same-apply : (ev : Event) (a b : RevocationDb) → Same a b → Same (apply ev a) (apply ev b)
Same-apply publication a b h =
    unfold apply in record { number = ap (λ n. (n + 1) % 2 ^ 64) h.number; entries = h.entries }
Same-apply (revocation e) a b h = record {
  number = crl_number-revocation e a ∙ h.number ∙ sym (crl_number-revocation e b);
  entries = λ s. entry_of-apply s e a ∙ ap (known s e) (h.entries s) ∙ sym (entry_of-apply s e b);
}
