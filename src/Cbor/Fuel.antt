-- ===== src/Cbor/Fuel.antt =====
-- The fuel of the decoder of common/cbor.hpp.
use mathlib.Core.Logic.{◌≢◌}
use tee_anchor.Prelude.{
  ℕ, zero, suc, ◌+◌, ◌-◌, ◌*◌, ◌/◌, ◌%◌, ◌^◌, ◌≤◌, ◌<◌, ◌≡◌, Bool, true, false, [], ◌∷◌, arith, ltb,
  ◌==◌, if◌then◌else◌, length, length-drop, Bytes, Result, ok, err, tee_anchor_error, std_exception,
  out_of_fuel,
}
use tee_anchor.Prelude.Results
use tee_anchor.Cbor.{
  Value, array, map, Decoder, rb, read_bytes, read_be, read_len, reserve, read_simple, read_flat,
  bytes, text, read_item, read_values, read_pairs, enough, decode,
}

-- The run ended, and an item that it read left at most `n - k` bytes.
abbrev pub Takes : {A : Type 0} → ℕ → ℕ → Result (A × Bytes) → Type 0
Takes k n (ok (a, rest)) = length rest + k ≤ n
Takes k n (err out_of_fuel) = ⊥
Takes k n (err (tee_anchor_error msg)) = Unit
Takes k n (err (std_exception msg)) = Unit

module _ {A B : Type 0} where
  pub Takes-bind :
      (j k n : ℕ) (r : Result (A × Bytes)) (f : A → Decoder B)
      → Takes j n r
      → ((a : A) (rest : Bytes) → length rest + j ≤ n → Takes k n (f a rest))
      → Takes k n (Results.◌>>=◌ r λ (a, rest). f a rest)
  Takes-bind j k n (ok (a, rest)) f h g = g a rest h
  Takes-bind j k n (err out_of_fuel) f h g = h
  Takes-bind j k n (err (tee_anchor_error msg)) f h g = tt
  Takes-bind j k n (err (std_exception msg)) f h g = tt

pub Takes-if :
    {A : Type 0} (b : Bool) (k n : ℕ) (x y : Result (A × Bytes))
    → Takes k n x
    → Takes k n y
    → Takes k n (if b then x else y)
Takes-if true k n x y hx hy = hx
Takes-if false k n x y hx hy = hy

pub Takes-weaken :
    {A : Type 0} (j k m n : ℕ) (r : Result (A × Bytes)) → Takes j m r → m + k ≤ n + j → Takes k n r
Takes-weaken j k m n (ok (a, rest)) h e = omega arith
Takes-weaken j k m n (err out_of_fuel) h e = h
Takes-weaken j k m n (err (tee_anchor_error msg)) h e = tt
Takes-weaken j k m n (err (std_exception msg)) h e = tt

pub rb-Takes : (s : Bytes) → Takes 1 (length s) (rb s)
unfolding rb
rb-Takes [] = tt
rb-Takes (b ∷ rest) = omega arith

read_bytes-Takes : (n : ℕ) (s : Bytes) → Takes 0 (length s) (read_bytes n s)
unfolding read_bytes
read_bytes-Takes n s =
    Takes-if (ltb (length s) n) 0 (length s) _ _ tt (omega (arith, length-drop n s))

read_be-Takes : (n v : ℕ) (s : Bytes) → Takes 0 (length s) (read_be n v s)
unfolding read_be
read_be-Takes zero v s = omega arith
read_be-Takes (suc n) v [] = tt
read_be-Takes (suc n) v (b ∷ s) =
    Takes-weaken 0 0 (length s) (length (b ∷ s)) (read_be n (v * 256 % 2 ^ 64 + b) s)
      (read_be-Takes n (v * 256 % 2 ^ 64 + b) s) (omega arith)

pub read_len-Takes : (ai : ℕ) (s : Bytes) → Takes 0 (length s) (read_len ai s)
unfolding read_len
read_len-Takes ai s = Takes-if (ltb ai 24) 0 (length s) _ _ (omega arith) (
    Takes-if (ai == 24) 0 (length s) _ _
      (Takes-weaken 1 0 (length s) (length s) (rb s) (rb-Takes s) (omega arith))
      (Takes-if (ai == 25) 0 (length s) _ _ (read_be-Takes 2 0 s) (
        Takes-if (ai == 26) 0 (length s) _ _ (read_be-Takes 4 0 s)
          (Takes-if (ai == 27) 0 (length s) _ _ (read_be-Takes 8 0 s) tt))))

reserve-Takes : (max_items n : ℕ) (s : Bytes) → Takes 0 (length s) (reserve max_items n s)
unfolding reserve
reserve-Takes max_items n s = Takes-if (ltb max_items n) 0 (length s) _ _ tt (omega arith)

-- A length, and what follows it.
after_len :
    {B : Type 0} (ai : ℕ) (s : Bytes) (f : ℕ → Decoder B)
    → ((n : ℕ) (rest : Bytes) → length rest ≤ length s → Takes 0 (length s) (f n rest))
    → Takes 0 (length s) (Results.◌>>=◌ (read_len ai s) λ (n, rest). f n rest)
after_len ai s f g =
    Takes-bind 0 0 (length s) (read_len ai s) f (read_len-Takes ai s)
      (λ n rest h. g n rest (omega arith))

read_simple-Takes : (ai : ℕ) (s : Bytes) → Takes 0 (length s) (read_simple ai s)
unfolding read_simple
read_simple-Takes ai s =
    Takes-if (ai == 24) 0 (length s) _ _
      (Takes-bind 1 0 (length s) (rb s) _ (rb-Takes s) (λ n rest h. omega arith))
      (Takes-if (ltb ai 24) 0 (length s) _ _ (omega arith) tt)

read_payload :
    (wrap : Bytes → Value) (ai : ℕ) (s : Bytes)
    → Takes 0 (length s) (
        Results.◌>>=◌
          (read_len ai s)
          λ (n, rest). Results.◌>>=◌ (read_bytes n rest) λ (d, rest'). ok (wrap d, rest'))
read_payload wrap ai s =
    after_len ai s (λ n rest. Results.◌>>=◌ (read_bytes n rest) λ (d, rest'). ok (wrap d, rest'))
      λ n rest h.
        Takes-weaken 0 0 (length rest) (length s) _
          (Takes-bind 0 0 (length rest) (read_bytes n rest) (λ d rest'. ok (wrap d, rest'))
            (read_bytes-Takes n rest) (λ d rest' k. k))
          (omega arith)

read_flat-Takes : (mt ai : ℕ) (s : Bytes) → Takes 0 (length s) (read_flat mt ai s)
unfolding read_flat
read_flat-Takes mt ai s =
    Takes-if (mt == 0) 0 (length s) _ _ (after_len ai s _ (λ n rest h. omega arith)) (
      Takes-if (mt == 1) 0 (length s) _ _ (after_len ai s _ (λ n rest h. omega arith)) (
        Takes-if (mt == 2) 0 (length s) _ _ (read_payload bytes ai s) (
          Takes-if (mt == 3) 0 (length s) _ _ (read_payload text ai s)
            (Takes-if (mt == 7) 0 (length s) _ _ (read_simple-Takes ai s) tt))))

after_reserve :
    {A B : Type 0} (max_items ai : ℕ) (s : Bytes) (loop : ℕ → Decoder A) (wrap : A → B)
    → ((n : ℕ) (rest : Bytes) → length rest ≤ length s → Takes 0 (length rest) (loop n rest))
    → Takes 0 (length s) (
        Results.◌>>=◌ (read_len ai s) λ (n, s₁).
          Results.◌>>=◌
            (reserve max_items n s₁)
            λ (_, s₂). Results.◌>>=◌ (loop n s₂) λ (a, s₃). ok (wrap a, s₃))
after_reserve max_items ai s loop wrap g = after_len ai s _ λ n s₁ h₁.
    Takes-weaken 0 0 (length s₁) (length s) _
      (Takes-bind 0 0 (length s₁) (reserve max_items n s₁) _ (reserve-Takes max_items n s₁)
        λ _ s₂ h₂.
          Takes-weaken 0 0 (length s₂) (length s₁) _
            (Takes-bind 0 0 (length s₂) (loop n s₂) _ (g n s₂ (omega arith)) (λ a s₃ h₃. h₃))
            (omega arith))
      (omega arith)

-- One induction on the fuel, for the three functions of the decoder.
mutual
  unfolding read_item

  read_item-Takes :
      (max_items f : ℕ) (s : Bytes)
      → 2 * length s < f
      → Takes 1 (length s) (read_item max_items f s)
  read_item-Takes max_items zero s h = absurd (omega arith)
  read_item-Takes max_items (suc f) [] h = tt
  read_item-Takes max_items (suc f) (ib ∷ s) h =
      Takes-weaken 0 1 (length s) (suc (length s)) _
        (Takes-if (ib / 32 == 4) 0 (length s) _ _
          (after_reserve max_items (ib % 32) s (read_values max_items f) array
            (λ n rest k. read_values-Takes max_items f n rest (omega arith)))
          (Takes-if (ib / 32 == 5) 0 (length s) _ _
            (after_reserve max_items (ib % 32) s (read_pairs max_items f) map
              (λ n rest k. read_pairs-Takes max_items f n rest (omega arith)))
            (Takes-if (ib / 32 == 6) 0 (length s) _ _
              (after_len (ib % 32) s _ λ n rest k.
                Takes-bind 1 0 (length s) (read_item max_items f rest) _
                  (Takes-weaken 1 1 (length rest) (length s) _
                    (read_item-Takes max_items f rest (omega arith)) (omega arith))
                  (λ v rest' k'. omega arith))
              (read_flat-Takes (ib / 32) (ib % 32) s))))
        (omega arith)

  read_values-Takes :
      (max_items f n : ℕ) (s : Bytes)
      → 2 * length s + 1 < f
      → Takes 0 (length s) (read_values max_items f n s)
  read_values-Takes max_items zero n s h = absurd (omega arith)
  read_values-Takes max_items (suc f) n s h = Takes-if (n == 0) 0 (length s) _ _ (omega arith) (
      Takes-bind 1 0 (length s) (read_item max_items f s) _
        (read_item-Takes max_items f s (omega arith))
        λ v s₁ h₁.
          Takes-bind 1 0 (length s) (read_values max_items f (n - 1) s₁) _
            (Takes-weaken 0 1 (length s₁) (length s) _
              (read_values-Takes max_items f (n - 1) s₁ (omega arith)) (omega arith))
            (λ vs s₂ h₂. omega arith))

  read_pairs-Takes :
      (max_items f n : ℕ) (s : Bytes)
      → 2 * length s + 1 < f
      → Takes 0 (length s) (read_pairs max_items f n s)
  read_pairs-Takes max_items zero n s h = absurd (omega arith)
  read_pairs-Takes max_items (suc f) n s h = Takes-if (n == 0) 0 (length s) _ _ (omega arith) (
      Takes-bind 1 0 (length s) (read_item max_items f s) _
        (read_item-Takes max_items f s (omega arith))
        λ k s₁ h₁.
          Takes-bind 2 0 (length s) (read_item max_items f s₁) _
            (Takes-weaken 1 2 (length s₁) (length s) _
              (read_item-Takes max_items f s₁ (omega arith)) (omega arith))
            λ v s₂ h₂.
              Takes-bind 2 0 (length s) (read_pairs max_items f (n - 1) s₂) _
                (Takes-weaken 0 2 (length s₂) (length s) _
                  (read_pairs-Takes max_items f (n - 1) s₂ (omega arith)) (omega arith))
                (λ ps s₃ h₃. omega arith))

ended : {A : Type 0} (k n : ℕ) (r : Result (A × Bytes)) → Takes k n r → r ≢ err out_of_fuel
ended k n (ok p) h = cc
ended k n (err out_of_fuel) h = absurd h
ended k n (err (tee_anchor_error msg)) h = cc
ended k n (err (std_exception msg)) h = cc

forget :
    {A : Type 0} (r : Result (A × Bytes))
    → r ≢ err out_of_fuel
    → Results.◌>>=◌ r (λ (a, rest). ok a) ≢ err out_of_fuel
forget (ok p) h = cc
forget (err e) h = λ q. h (cc)

-- On every input, and whatever number of items fits in memory, the decoder returns an item or throws
-- an exception of the program: it does not run on, and an item that it reads takes at least one
-- byte of the input, so `decode` of nothing is an error.
pub decode-ne-out_of_fuel :
    (max_items : ℕ) (s : Bytes)
    → (decode max_items s ≢ err out_of_fuel)
      × ((v : Value) (rest : Bytes)
          → read_item max_items (enough s) s ≡ ok (v, rest)
          → length rest < length s)
unfolding decode
decode-ne-out_of_fuel max_items s =
    let took = read_item-Takes max_items (enough s) s (omega arith) in
    (forget _ (ended 1 (length s) _ took), λ v rest e. shorter v rest _ e took)
  where
    shorter :
        (v : Value) (rest : Bytes) (r : Result (Value × Bytes))
        → r ≡ ok (v, rest)
        → Takes 1 (length s) r
        → length rest < length s
    shorter v rest (ok p) e t = ground arith
    shorter v rest (err x) e t = cc

-- The decoder ends on every input, within the fuel that `decode` gives it: a value comes back, or one
-- of the program's exceptions.
pub decode-Ends : (max_items : ℕ) (s : Bytes) → decode max_items s ≢ err out_of_fuel
decode-Ends max_items s = (decode-ne-out_of_fuel max_items s).0
