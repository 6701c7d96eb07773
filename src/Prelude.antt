-- ===== src/Prelude.antt =====
-- The names that every module shares: the libraries', passed on, and those of its children.
mod Tests
mod Lists
mod Text
mod Integer
mod Maps
mod Strings
mod Comparing
mod Sorting
mod Sets
pub use Tests.*
unfoldable pub use Lists.*
unfoldable pub use Text.*
pub use Integer.*
unfoldable pub use Maps.*
unfoldable pub use Strings.*
unfoldable pub use Comparing.*
unfoldable pub use Sorting.*
unfoldable pub use Sets.*
pub use Prim.Native.Nat.{
  compare, Ordering, lt, eq, gt, ℕ, zero, suc, ◌+◌, ◌-◌, ◌*◌, ◌/◌, ◌%◌, ◌^◌, ◌≤◌, ◌<◌, min, max,
}
pub use mathlib.Core.Path.{◌≡◌, refl, sym, ap, ◌∙◌, subst}
pub use mathlib.Core.Logic.{◌≢◌, ◌↔◌, ◌⊎◌, inl, inr}
pub use mathlib.Core.Bool.{Bool, true, false, not, ◌&&◌, ◌||◌}
pub use mathlib.Core.Option.{Option, none, some}
pub use mathlib.Core.List.{List, [], ◌∷◌, ◌++◌, map, append_assoc}
pub use native.Mathlib.Omega.{arith}
