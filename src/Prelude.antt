-- ===== src/Prelude.antt =====
-- The names that every module shares: the library's, passed on, and those of the children.
pub mod Tests
pub mod Lists
pub mod Sets
pub mod Results
pub mod Faultless
pub use Tests.*
pub use Lists.*
pub use Sets.*
pub use Results.*
pub use Prim.Native.Nat.{ℕ, zero, suc, ◌+◌, ◌-◌, ◌*◌, ◌/◌, ◌≤◌, ◌<◌, min, max}
pub use mathlib.Core.Path.{◌≡◌, refl, sym, ap, ◌∙◌, subst}
pub use mathlib.Core.Logic.{◌≢◌, ◌↔◌, ◌⊎◌, inl, inr}
pub use mathlib.Core.Bool.{Bool, true, false, ◌&&◌, ◌||◌, not}
pub use mathlib.Core.Option.{Option, none, some}
pub use mathlib.Core.List.{List, [], ◌∷◌, ◌++◌, map, tail}
pub use native.Mathlib.Omega.{arith}
