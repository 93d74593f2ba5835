-- ===== src/Prelude.antt =====
-- Names that every module shares: the libraries' names passed on, and those of the children
-- (Boolean tests on numbers, lists indexed by numbers, signed integers, runs that may fault).
pub mod Tests
mod Lists
pub mod Fault
mod Text
pub mod Int
pub mod Post
pub mod Bits
pub use Tests.*
pub use Lists.*
pub use Fault.*
pub use Text.*
pub use Prim.Native.Nat.{ℕ, zero, suc, ◌+◌, ◌-◌, ◌*◌, ◌/◌, ◌%◌, ◌^◌, ◌≤◌, ◌<◌, min}
pub use mathlib.Core.Path.{◌≡◌, refl, sym, ap, ◌∙◌}
pub use mathlib.Core.Logic.{◌≢◌, ◌↔◌, ◌⊎◌, inl, inr}
pub use mathlib.Core.Bool.{Bool, true, false, not, ◌&&◌, ◌||◌}
pub use mathlib.Core.Option.{Option, none, some}
pub use mathlib.Core.List.{List, [], ◌∷◌, ◌++◌, map}
pub use native.Mathlib.Omega.{arith}
