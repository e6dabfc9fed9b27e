-- ===== src/Prelude/Results.antt =====
-- Exceptions as values. common/error.hpp declares `TeeAnchorError`, thrown by the program itself and
-- by `throw_openssl_error`; every other `std::exception` comes from the standard library. A handler
-- tells the two apart, so the model keeps which was thrown and the fixed part of its message; the
-- variable part (a path, a number, the OpenSSL error text) is left out. `out_of_fuel` has no
-- counterpart in the program: it marks a loop of the model whose fuel ran out.
use Prim.Native.String.{String}
use mathlib.Core.Path.{◌≡◌, refl, ap}
use mathlib.Core.Logic.{◌⊎◌, inl, inr}
use mathlib.Core.Bool.{Bool, true, false}
use mathlib.Core.Option.{Option, none, some}
use native.Mathlib.Omega.{arith}
use tee_anchor.Prelude.Tests.{if◌then◌else◌}

pub data Error : Type 0 where
  tee_anchor_error : String → Error
  std_exception : String → Error
  out_of_fuel : Error

pub data Result {ℓ} (A : Type ℓ) : Type ℓ where
  ok : A → Result A
  err : Error → Result A

-- `throw TeeAnchorError(msg)`, also as thrown by `throw_openssl_error(msg)`.
abbrev pub throw {ℓ} : {A : Type ℓ} → String → Result A
throw msg = err (tee_anchor_error msg)

infixl 5 ◌>>=◌ ◌>>◌
-- Statements in sequence: the first exception ends them.
abbrev pub ◌>>=◌ {κ μ} : {X : Type κ} {Y : Type μ} → Result X → (X → Result Y) → Result Y
err thrown >>= next = err thrown
ok x >>= next = next x

abbrev pub ◌>>◌ {κ} : {Y : Type κ} → Result (Unit {0}) → Result Y → Result Y
first >> rest = first >>= λ _. rest

-- `if (bad) throw TeeAnchorError(msg);`
abbrev pub throw_if : Bool → String → Result (Unit {0})
throw_if true msg = throw msg
throw_if false msg = ok tt

-- `if (!p) throw ...`
abbrev pub or_throw {ℓ} : {A : Type ℓ} → Option A → String → Result A
or_throw none msg = throw msg
or_throw (some a) msg = ok a

-- What returned passed through every statement.
pub >>=-eq-ok {κ μ} :
    {X : Type κ} {Y : Type μ} (first : Result X) (next : X → Result Y) {y : Y}
    → (first >>= next) ≡ ok y
    → (x : X) × (first ≡ ok x) × (next x ≡ ok y)
>>=-eq-ok (err thrown) next returned = cc
>>=-eq-ok (ok x) next returned = (x, refl, returned)

pub throw_if-eq-ok : (b : Bool) (msg : String) {u : Unit {0}} → throw_if b msg ≡ ok u → b ≡ false
throw_if-eq-ok true msg h = cc
throw_if-eq-ok false msg h = refl

pub or_throw-eq-ok {ℓ} :
    {A : Type ℓ} (o : Option A) (msg : String) {a : A} → or_throw o msg ≡ ok a → o ≡ some a
or_throw-eq-ok none msg h = cc
or_throw-eq-ok (some x) msg h = ground arith

-- The run ended: it returned, or threw what the program throws.
abbrev pub Ends : {A : Type 0} → Result A → Type 0
Ends (ok a) = Unit
Ends (err (tee_anchor_error msg)) = Unit
Ends (err (std_exception msg)) = Unit
Ends (err out_of_fuel) = ⊥

pub Ends-bind :
    {A B : Type 0} (m : Result A) (f : A → Result B)
    → Ends m
    → ((a : A) → m ≡ ok a → Ends (f a))
    → Ends (m >>= f)
Ends-bind (ok a) f h g = g a refl
Ends-bind (err (tee_anchor_error msg)) f h g = tt
Ends-bind (err (std_exception msg)) f h g = tt
Ends-bind (err out_of_fuel) f h g = absurd h

pub Ends-throw_if : (b : Bool) (msg : String) → Ends (throw_if b msg)
Ends-throw_if true msg = tt
Ends-throw_if false msg = tt

pub Ends-throw_if_then :
    {A : Type 0} (b : Bool) (msg : String) (r : Result A) → Ends r → Ends (throw_if b msg >> r)
Ends-throw_if_then true msg r h = tt
Ends-throw_if_then false msg r h = h

pub Ends-or_throw : {A : Type 0} (o : Option A) (msg : String) → Ends (or_throw o msg)
Ends-or_throw none msg = tt
Ends-or_throw (some a) msg = tt

pub Ends-ne : {A : Type 0} (r : Result A) → Ends r → ¬ (r ≡ err out_of_fuel)
Ends-ne (ok a) h = cc
Ends-ne (err (tee_anchor_error msg)) h = cc
Ends-ne (err (std_exception msg)) h = cc
Ends-ne (err out_of_fuel) h = absurd h

pub Result-cases :
    {A : Type 0} (r : Result A) → ((a : A) × (r ≡ ok a)) ⊎ ((e : Error) × (r ≡ err e))
Result-cases (ok a) = inl (a, refl)
Result-cases (err e) = inr (e, refl)

pub >>-eq-ok {ℓ} :
    {B : Type ℓ} (m : Result (Unit {0})) (k : Result B) {b : B}
    → (m >> k) ≡ ok b
    → (m ≡ ok tt) × (k ≡ ok b)
>>-eq-ok (ok u) k h = (refl, h)
>>-eq-ok (err e) k h = cc

pub ok_injective : {A : Type 0} {a b : A} → ok a ≡ ok b → a ≡ b
ok_injective {A} {a} {b} h = ap (λ (r : Result A). value_or a r) h
  where
    value_or : A → Result A → A
    value_or d (ok x) = x
    value_or d (err e) = d

-- `if (!good) throw ...`
pub throw_unless-eq-ok :
    (b : Bool) (msg : String) → throw_if (if b then false else true) msg ≡ ok tt → b ≡ true
throw_unless-eq-ok true msg h = refl
throw_unless-eq-ok false msg h = cc

pub err-ne-ok : {A : Type 0} {e : Error} {a : A} → ¬ (err e ≡ ok a)
err-ne-ok h = cc
