-- ===== src/CrlIssue/Sorted.antt =====
-- The serial numbers that a CRL of ca/crl_issue.cpp lists, in whatever order.
use mathlib.Core.List.{Permᴰ}
use mathlib.Core.List.Permᴰ.{nil, cons, swap, trans}
use tee_anchor.Prelude.{
  ℕ, ◌≡◌, refl, ap, sym, ◌∙◌, Bool, true, false, ◌||◌, Option, some, List, [], ◌∷◌, ◌++◌, ◌==◌,
  Bytes, bytes_eq, bytes_eq_iff, Bool-cases, inl, inr, arith,
}
use tee_anchor.OpenSsl.{OpenSsl, Revoked}
use tee_anchor.RevocationDb.{RevocationEntry}
use tee_anchor.Revoke.{has_serial}
use tee_anchor.CrlIssue.Entries.{AllLists}

-- Whether a serial number is among the entries of a CRL.
unfoldable pub lists_serial : ℕ → List Revoked → Bool
lists_serial n [] = false
lists_serial n (r ∷ rs) = r.serial == n || lists_serial n rs

-- `X509_CRL_sort` documents that it sorts the entries: none is lost, and none is made.
abbrev pub Sorts : OpenSsl → Type 0
Sorts ssl = (rs : List Revoked) → Permᴰ rs (ssl.sort_revoked rs)

lists_serial-swap :
    (n : ℕ) (r s : Revoked) (rs : List Revoked)
    → lists_serial n (r ∷ s ∷ rs) ≡ lists_serial n (s ∷ r ∷ rs)
unfolding lists_serial
lists_serial-swap n r s rs = ground arith

lists_serial-Perm :
    (n : ℕ) (rs rs' : List Revoked) → Permᴰ rs rs' → lists_serial n rs ≡ lists_serial n rs'
unfolding lists_serial
lists_serial-Perm n rs rs' nil = refl
lists_serial-Perm n rs rs' (trans {l₂ = mid} p q) =
    lists_serial-Perm n rs mid p ∙ lists_serial-Perm n mid rs' q
lists_serial-Perm n rs rs' (cons {a = r} {b = s} {l₁ = xs} {l₂ = ys} same p) =
    ap (λ b. r.serial == n || b) (lists_serial-Perm n xs ys p)
    ∙ ap (λ (x : Revoked). x.serial == n || lists_serial n ys) same
lists_serial-Perm n rs rs' (swap {a = r} {b = s} {a' = x} {b' = y} {l = xs} same same') =
    lists_serial-swap n r s xs
    ∙ ap (λ (z : Revoked). lists_serial n (z ∷ r ∷ xs)) same'
    ∙ ap (λ (z : Revoked). lists_serial n (x ∷ z ∷ xs)) same

module _ (ssl : OpenSsl) where
  pub lists_serial-sorted :
      Sorts ssl
      → (n : ℕ) (rs : List Revoked) → lists_serial n (ssl.sort_revoked rs) ≡ lists_serial n rs
  lists_serial-sorted sorts n rs = sym (lists_serial-Perm n rs (ssl.sort_revoked rs) (sorts rs))

  -- A serial number of the list is one of the CRL.
  pub has_serial-lists :
      (s : Bytes) (n : ℕ) (es : List RevocationEntry) (rs : List Revoked)
      → ssl.number_of_hex s ≡ some n
      → AllLists ssl es rs
      → has_serial s es ≡ true
      → lists_serial n rs ≡ true
  unfolding has_serial lists_serial
  has_serial-lists s n [] rs digits all h = cc
  has_serial-lists s n (e ∷ es) [] digits all h = absurd all
  has_serial-lists s n (e ∷ es) (r ∷ rs) digits (first, rest) h =
      elim (Bool-cases (bytes_eq e.serial_hex s)) [
        | inl same ↦
            let number : ◌≡◌ {A = Option ℕ} (some r.serial) (some n) =
              sym first.serial
              ∙ ap ssl.number_of_hex ((bytes_eq_iff e.serial_hex s).0 same)
              ∙ digits in
            ground arith
        | inr other ↦ ground (arith, has_serial-lists s n es rs digits rest)
      ]

  -- A longer list makes a CRL that lists all that the shorter one's lists.
  pub lists_serial-longer :
      (n : ℕ) (es new : List RevocationEntry) (rs rs' : List Revoked)
      → AllLists ssl es rs
      → AllLists ssl (es ++ new) rs'
      → lists_serial n rs ≡ true
      → lists_serial n rs' ≡ true
  unfolding lists_serial
  lists_serial-longer n [] new [] rs' all all' h = cc
  lists_serial-longer n [] new (r ∷ rs) rs' all all' h = absurd all
  lists_serial-longer n (e ∷ es) new [] rs' all all' h = cc
  lists_serial-longer n (e ∷ es) new (r ∷ rs) [] all all' h = absurd all'
  lists_serial-longer n (e ∷ es) new (r ∷ rs) (r' ∷ rs') (first, rest) (first', rest') h =
      let same : ◌≡◌ {A = Option ℕ} (some r.serial) (some r'.serial) =
        sym first.serial ∙ first'.serial in
      ground (arith, lists_serial-longer n es new rs rs' rest rest')
