-- ===== src/Registry/Apart.antt =====
-- Logs of ca/revoke.cpp and ca/crl_issue.cpp in another order.
use mathlib.Core.List.{Permᴰ}
use mathlib.Core.List.Permᴰ.{nil, cons, swap, trans}
use tee_anchor.Prelude.{
  ◌≡◌, refl, ap, sym, subst, ◌∙◌, false, ◌||◌, List, [], ◌∷◌, Bytes, bytes_eq, arith,
}
use tee_anchor.RevocationDb.{RevocationEntry}
use tee_anchor.Registry.{Event, revocation, publication}
use tee_anchor.Registry.Log.{revokes_serial}
use tee_anchor.Registry.Refines.{bytes_eq-swap}

-- No serial number is revoked by two events of the log.
abbrev pub Apart : List Event → Type 0
Apart [] = Unit
Apart (revocation e ∷ log) = (revokes_serial e.serial_hex log ≡ false) × Apart log
Apart (publication ∷ log) = Apart log

pub Apart-tail : (ev : Event) (log : List Event) → Apart (ev ∷ log) → Apart log
Apart-tail publication log h = h
Apart-tail (revocation e) log (new, h) = h

revokes_serial-cons :
    (s : Bytes) (ev : Event) (log : List Event)
    → revokes_serial s (ev ∷ log) ≡ (revokes_serial s (ev ∷ []) || revokes_serial s log)
unfolding revokes_serial
revokes_serial-cons s publication log = refl
revokes_serial-cons s (revocation e) log = ground arith

revokes_serial-swap :
    (s : Bytes) (d e : Event) (log : List Event)
    → revokes_serial s (d ∷ e ∷ log) ≡ revokes_serial s (e ∷ d ∷ log)
revokes_serial-swap s d e log = ground (
  arith,
  revokes_serial-cons s d (e ∷ log),
  revokes_serial-cons s e log,
  revokes_serial-cons s e (d ∷ log),
  revokes_serial-cons s d log,
)

revokes_serial-Perm :
    (s : Bytes) (log log' : List Event)
    → Permᴰ log log'
    → revokes_serial s log ≡ revokes_serial s log'
revokes_serial-Perm s log log' nil = refl
revokes_serial-Perm s log log' (trans {l₂ = mid} p q) =
    revokes_serial-Perm s log mid p ∙ revokes_serial-Perm s mid log' q
revokes_serial-Perm s log log' (cons {a = d} {b = e} {l₁ = xs} {l₂ = ys} same p) =
    revokes_serial-cons s d xs
    ∙ ap (λ b. revokes_serial s (d ∷ []) || b) (revokes_serial-Perm s xs ys p)
    ∙ sym (revokes_serial-cons s d ys)
    ∙ ap (λ x. revokes_serial s (x ∷ ys)) same
revokes_serial-Perm s log log' (swap {a = d} {b = e} {a' = x} {b' = y} {l = xs} same same') =
    revokes_serial-swap s d e xs
    ∙ ap (λ z. revokes_serial s (z ∷ d ∷ xs)) same'
    ∙ ap (λ z. revokes_serial s (x ∷ z ∷ xs)) same

Apart-cons :
    (ev : Event) (xs ys : List Event)
    → ((s : Bytes) → revokes_serial s xs ≡ revokes_serial s ys)
    → (Apart xs → Apart ys)
    → Apart (ev ∷ xs)
    → Apart (ev ∷ ys)
Apart-cons publication xs ys h k apart = k apart
Apart-cons (revocation e) xs ys h k (new, apart) = (sym (h e.serial_hex) ∙ new, k apart)

revokes_serial-other :
    (s : Bytes) (e : RevocationEntry) (log : List Event)
    → revokes_serial s (revocation e ∷ log) ≡ false
    → (bytes_eq e.serial_hex s ≡ false) × (revokes_serial s log ≡ false)
unfolding revokes_serial
revokes_serial-other s e log h = ground arith

revokes_serial-both :
    (s : Bytes) (e : RevocationEntry) (log : List Event)
    → bytes_eq e.serial_hex s ≡ false
    → revokes_serial s log ≡ false
    → revokes_serial s (revocation e ∷ log) ≡ false
unfolding revokes_serial
revokes_serial-both s e log h k = ground arith

Apart-swap : (d e : Event) (log : List Event) → Apart (d ∷ e ∷ log) → Apart (e ∷ d ∷ log)
Apart-swap publication publication log h = h
Apart-swap publication (revocation e) log (new, apart) = unfold revokes_serial in (new, apart)
Apart-swap (revocation d) publication log (new, apart) = unfold revokes_serial in (new, apart)
Apart-swap (revocation d) (revocation e) log (new, (new', apart)) =
    let (other, new'') = revokes_serial-other d.serial_hex e log new in
    (
      revokes_serial-both e.serial_hex d log (bytes_eq-swap e.serial_hex d.serial_hex other) new',
      (new'', apart),
    )

pub Apart-Perm : (log log' : List Event) → Permᴰ log log' → Apart log → Apart log'
Apart-Perm log log' nil h = h
Apart-Perm log log' (trans {l₂ = mid} p q) h = Apart-Perm mid log' q (Apart-Perm log mid p h)
Apart-Perm log log' (cons {a = d} {b = e} {l₁ = xs} {l₂ = ys} same p) h =
    subst (λ x. Apart (x ∷ ys)) same
      (Apart-cons d xs ys (λ s. revokes_serial-Perm s xs ys p) (Apart-Perm xs ys p) h)
Apart-Perm log log' (swap {a = d} {b = e} {a' = x} {b' = y} {l = xs} same same') h =
    subst (λ z. Apart (x ∷ z ∷ xs)) same
      (subst (λ z. Apart (z ∷ d ∷ xs)) same' (Apart-swap d e xs h))
