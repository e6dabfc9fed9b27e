-- ===== src/CrlIssue/Reasons.antt =====
-- The reasons of ca/revoke.cpp and their codes in ca/crl_issue.cpp.
use tee_anchor.Prelude.{
  ℕ, ◌≤◌, ◌≡◌, refl, true, false, List, [], ◌∷◌, Bytes, bytes_eq, is_empty, All, ok, arith,
  Bool-cases, inl, inr,
}
use tee_anchor.Revoke.{is_one_of, is_valid_reason}
use tee_anchor.CrlIssue.{lookup_reason, reason_to_int, reason_map}

names : List (Bytes × ℕ) → List Bytes
names [] = []
names ((n, v) ∷ rest) = n ∷ names rest

IsCode : Bytes × ℕ → Type 0
IsCode p = p.1 ≤ 10

lookup_reason-names :
    (m : List (Bytes × ℕ)) (r : Bytes)
    → All IsCode m
    → is_one_of (names m) r ≡ true
    → (n : ℕ) × (lookup_reason m r ≡ ok n) × (n ≤ 10)
unfolding lookup_reason is_one_of names IsCode
lookup_reason-names [] r all h = cc
lookup_reason-names ((n, v) ∷ rest) r (small, all) h = elim (Bool-cases (bytes_eq n r)) [
  | inl same ↦ (v, rw same refl, small)
  | inr other ↦ rw other (lookup_reason-names rest r all (rw other at h))
]

-- A reason that `revoke` accepts has a code of RFC 5280: the table of `crl-issue` lists the names that
-- the table of `revoke` lists.
pub reason_to_int-is_valid_reason :
    (r : Bytes)
    → is_empty r ≡ false
    → is_valid_reason r ≡ true
    → (n : ℕ) × (reason_to_int r ≡ ok n) × (n ≤ 10)
unfolding is_valid_reason reason_to_int names IsCode
reason_to_int-is_valid_reason r h h' =
    lookup_reason-names reason_map r
      (
        omega arith,
        (
          omega arith,
          (
            omega arith,
            (
              omega arith,
              (omega arith, (omega arith, (omega arith, (omega arith, (omega arith, tt))))),
            ),
          ),
        ),
      )
      (rw h at h')
