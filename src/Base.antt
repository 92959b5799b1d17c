-- ===== src/Base.antt =====
-- The names that every module shares: the libraries' own, and those of the children.
pub mod Tests
pub mod Lists
pub mod Int
pub mod Text
pub mod Unicode
pub mod Decimal
pub mod Sorting
pub mod Orders
pub mod TextOrder
unfoldable pub use Tests.*
unfoldable pub use Lists.*
pub use Prim.Native.Nat.{
  ℕ, zero, suc, ◌+◌, ◌-◌, ◌*◌, ◌/◌, ◌%◌, ◌^◌, ◌≤◌, ◌<◌, min, max, compare, Ordering,
}
pub use Prim.Native.String.{String}
pub use mathlib.Core.Path.{◌≡◌, refl, sym, ap, ◌∙◌, subst}
pub use mathlib.Core.Logic.{◌≢◌, ◌↔◌, ◌⊎◌, inl, inr, ite}
pub use mathlib.Core.Bool.{Bool, true, false, not, ◌&&◌, ◌||◌}
pub use mathlib.Core.Option.{Option, none, some}
pub use mathlib.Core.List.{List, [], ◌∷◌, ◌++◌, map, filter, reverse}
pub use native.Mathlib.Omega.{arith}
unfoldable pub use mathlib.Core.Bool.{decide}
unfoldable pub use native.Mathlib.Decide.{dec_lt, dec_le, ℕ_discrete}
