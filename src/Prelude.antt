-- ===== src/Prelude.antt =====
-- The names that every module shares: the libraries' names passed on, Boolean tests, lists over the
-- native numbers, byte strings, signed integers, and results that carry the program's exceptions.
mod Tests
mod Lists
mod Buffers
pub mod Results
pub mod Int
pub mod Endings
pub use Tests.*
pub use Lists.*
pub use Buffers.{Bytes, IsByte, codes, is_empty, bytes_eq_iff, bytes_eq_refl}
unfoldable pub use Buffers.{bytes_eq}
pub use Results.*
pub use Prim.Native.Nat.{ℕ, zero, suc, ◌+◌, ◌-◌, ◌*◌, ◌/◌, ◌%◌, ◌^◌, ◌≤◌, ◌<◌}
pub use Prim.Native.String.{String}
pub use mathlib.Core.Path.{◌≡◌, refl, sym, ap, subst, ◌∙◌}
pub use mathlib.Core.Logic.{◌≢◌, ◌↔◌, ◌⊎◌, inl, inr}
pub use mathlib.Core.Bool.{Bool, true, false, ◌&&◌, ◌||◌}
pub use mathlib.Core.Option.{Option, none, some}
pub use mathlib.Core.List.{List, [], ◌∷◌, ◌++◌, append_assoc, append-nil}
pub use native.Mathlib.Omega.{arith}
