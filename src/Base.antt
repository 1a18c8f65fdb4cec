-- ===== src/Base.antt =====
-- Library names that the other modules share, Boolean tests on native numbers, and the conditional.
-- No code of the repository is modelled in this file.
pub mod Int
pub mod Dicts
pub mod Texts
pub mod Lists
pub mod Sort
pub mod Floats
pub use Prim.Native.Nat.{ℕ, zero, suc, ◌+◌, ◌-◌, ◌*◌, ◌/◌, ◌%◌, ◌^◌, ◌≤◌, ◌<◌}
pub use mathlib.Core.Path.{◌≡◌, refl, sym, ap, ◌∙◌}
pub use mathlib.Core.Logic.{◌≢◌, ◌↔◌, ◌⊎◌, inl, inr}
pub use mathlib.Core.Bool.{Bool, true, false, not, ◌&&◌, ◌||◌}
pub use mathlib.Core.Option.{Option, none, some}
pub use mathlib.Core.List.{List, [], ◌∷◌, ◌++◌, map}
pub use native.Mathlib.Omega.{arith}
mod Tests
pub use Tests.*
