-- ===== src/World/Ends.antt =====
-- common/io.hpp: its results are never out of fuel.
use tee_anchor.Prelude.{
  ℕ, Bool, true, false, if◌then◌else◌, Bytes, Result, ok, err, Option, none, some,
}
use tee_anchor.Prelude.Endings.{Stops, Stops-ok, Stops-throw}
use tee_anchor.World.{World, Io, continue, and_then, write_file}

pub continue-Stops :
    {A B : Type 0} (r : Result A) (f : A → Io B) (w : World)
    → Stops r
    → ((a : A) → Stops (f a w).0)
    → Stops (continue r f w).0
continue-Stops (ok a) f w h k = k a
continue-Stops (err e) f w h k = record { ends = h.ends }

-- `if (!file) throw ...` and the like: whether the action stops does not depend on the test.
pub Stops-if_io :
    {A : Type 0} (b : Bool) (x y : Result A × World)
    → Stops x.0
    → Stops y.0
    → Stops (if b then x else y).0
Stops-if_io true x y hx hy = hx
Stops-if_io false x y hx hy = hy

pub Stops-option_io :
    {A B : Type 0} (o : Option A) (x : Io B) (f : A → Io B) (w : World)
    → Stops (x w).0
    → ((a : A) → Stops (f a w).0)
    → Stops (elim o as (λ _. Io B) [ none ↦ x | some a ↦ f a ] w).0
Stops-option_io none x f w hx hf = hx
Stops-option_io (some a) x f w hx hf = hf a

pub and_then-Stops :
    {B : Type 0} (m : Io (Unit {0})) (k : Io B) (w : World)
    → Stops (m w).0
    → ((w' : World) → Stops (k w').0)
    → Stops (and_then m k w).0
and_then-Stops m k w hm hk = continue-Stops (m w).0 (λ _. k) (m w).1 hm (λ _. hk (m w).1)

pub write_file-Stops :
    (path text : Bytes) (mode : ℕ) (w : World) → Stops (write_file path text mode w).0
unfolding write_file
write_file-Stops path text mode w =
    Stops-if_io _ _ _
      (Stops-if_io _ _ _ (Stops-throw _) (Stops-if_io _ _ _ (Stops-ok tt) (Stops-throw _)))
      (Stops-throw _)
