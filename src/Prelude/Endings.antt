-- ===== src/Prelude/Endings.antt =====
-- A run that ends, as a family with a rule for each way to build a `Result`, so that `search` proves
-- it of a whole `do` block.
use mathlib.Core.Path.{refl}
use mathlib.Core.Logic.{◌≢◌}
use mathlib.Core.Bool.{Bool, true, false}
use mathlib.Core.Option.{Option, none, some}
use Prim.Native.String.{String}
use tee_anchor.Prelude.Tests.{if◌then◌else◌}
use tee_anchor.Prelude.Results.{
  Result, ok, err, throw, throw_if, or_throw, out_of_fuel, ◌>>=◌, Ends, Ends-bind, Ends-throw_if,
  Ends-or_throw, Ends-ne, tee_anchor_error, std_exception,
}

pub record Stops {A : Type 0} (r : Result A) : Type 0 where
  pub ends : Ends r

pub Stops-ne : {A : Type 0} (r : Result A) → Stops r → r ≢ err out_of_fuel
Stops-ne r h = Ends-ne r h.ends

pub Stops-of-ne : {A : Type 0} (r : Result A) → r ≢ err out_of_fuel → Stops r
Stops-of-ne (ok a) h = record { ends = tt }
Stops-of-ne (err (tee_anchor_error msg)) h = record { ends = tt }
Stops-of-ne (err (std_exception msg)) h = record { ends = tt }
Stops-of-ne (err out_of_fuel) h = absurd (h refl)

module _ {A : Type 0} where
  pub Stops-ok : (a : A) → Stops (ok a)
  Stops-ok a = record { ends = tt }

  pub Stops-std : (msg : String) → Stops {A = A} (err (std_exception msg))
  Stops-std msg = record { ends = tt }

  pub Stops-throw : (msg : String) → Stops {A = A} (throw msg)
  Stops-throw msg = record { ends = tt }

  pub Stops-or_throw : (o : Option A) (msg : String) → Stops (or_throw o msg)
  Stops-or_throw o msg = record { ends = Ends-or_throw o msg }

  pub Stops-if : (b : Bool) (r s : Result A) → Stops r → Stops s → Stops (if b then r else s)
  Stops-if true r s hr hs = hr
  Stops-if false r s hr hs = hs

pub Stops-throw_if : (b : Bool) (msg : String) → Stops (throw_if b msg)
Stops-throw_if b msg = record { ends = Ends-throw_if b msg }

module _ {A B : Type 0} where
  pub Stops-bind :
      (m : Result A) (f : A → Result B) → Stops m → ((a : A) → Stops (f a)) → Stops (m >>= f)
  Stops-bind m f h g = record { ends = Ends-bind m f h.ends (λ a _. (g a).ends) }

  pub Stops-option :
      (o : Option A) (r : Result B) (f : A → Result B)
      → Stops r
      → ((a : A) → Stops (f a))
      → Stops (elim o [ none ↦ r | some a ↦ f a ])
  Stops-option none r f h g = h
  Stops-option (some a) r f h g = g a

pub ruleset stops_rules =
    (Stops-ok, Stops-throw, Stops-std, Stops-or_throw, Stops-if, Stops-throw_if, Stops-bind)
