-- ===== src/Prelude.antt =====
-- Shared names: the libraries' own, passed on, and those of the children, which hold the Boolean
-- tests, the lists measured by native numbers, the exact decimals and the dictionaries.
mod Tests
mod Lists
mod Bools
pub mod Int
pub mod Decimal
pub mod Dict
pub use Tests.*
pub use Lists.*
pub use Bools.*
pub use Prim.Native.Nat.{ℕ, zero, suc, ◌+◌, ◌-◌, ◌*◌, ◌/◌, ◌%◌, ◌≤◌, ◌<◌}
pub use mathlib.Core.Path.{◌≡◌, refl, sym, ap, ap₂, subst, ◌∙◌}
pub use mathlib.Core.Logic.{◌≢◌, ◌↔◌, ◌⊎◌, inl, inr}
pub use mathlib.Core.Bool.{Bool, true, false, not, ◌&&◌, ◌||◌}
pub use mathlib.Core.Option.{Option, none, some}
pub use mathlib.Core.List.{List, [], ◌∷◌, ◌++◌, map}
pub use native.Mathlib.Omega.{arith}
