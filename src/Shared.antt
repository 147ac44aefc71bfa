-- ===== src/Shared.antt =====
-- Names that every module shares: the libraries', passed on, and those of the children: Boolean
-- tests and bounded integers, lists over the native numbers, the maps of std, and decimal text.
mod Tests
mod Lists
mod Text
pub mod BTreeMap
pub mod HashMap
pub mod Bytes
pub mod Decimal
pub mod Split
pub mod Sort
pub mod Division
pub mod Ints
pub mod Float
pub use Tests.*
pub use Lists.*
pub use Text.*
pub use Prim.Native.Nat.{ℕ, zero, suc, ◌+◌, ◌-◌, ◌*◌, ◌/◌, ◌%◌, ◌^◌, ◌≤◌, ◌<◌, min, max}
pub use Prim.Native.String.{String}
pub use mathlib.Core.Path.{◌≡◌, refl, sym, ap, subst, ◌∙◌}
pub use mathlib.Core.Logic.{◌≢◌, ◌↔◌, ◌⊎◌, inl, inr}
pub use mathlib.Core.Bool.{Bool, true, false, not, ◌&&◌, ◌||◌}
pub use mathlib.Core.Option.{Option, none, some}
pub use mathlib.Core.List.{List, [], ◌∷◌, ◌++◌, map}
pub use native.Mathlib.Omega.{arith}
