-- ===== src/Shared.antt =====
-- What every component shares: the libraries' names, passed on, and the helpers of the children.
-- Tests: Boolean tests, the conditional, and `===` as an interface. Texts: templates and `join`.
-- Lists: `filter`, `find`, `some`, `every`, and predicates on all the items of a list.
-- Dicts: `Map`, `Set` and objects used as maps, in the order of insertion.
-- Sorting, CodeUnits: `Array.prototype.sort` and its default order. Decimals: `String(n)` and `Number(text)`.
-- Json: JSON values and `JSON.stringify`. Trim: `trim`. Regex: regular expressions as they run. Int: the numbers that a comparator returns.
mod Tests
mod Texts
mod Lists
pub mod Dicts
pub mod Sorting
pub mod CodeUnits
pub mod Regex
pub mod Json
pub mod Trim
pub mod Decimals
pub mod Int
pub use Tests.*
unfoldable pub use Texts.{template, join}
pub use Lists.*
pub use Prim.Native.Nat.{ℕ, zero, suc, ◌+◌, ◌-◌, ◌*◌, ◌/◌, ◌%◌, ◌≤◌, ◌<◌}
pub use Prim.Native.String.{String}
pub use mathlib.Core.Path.{◌≡◌, refl, sym, ap, ◌∙◌, subst}
pub use mathlib.Core.Logic.{◌≢◌, ◌↔◌, ◌⊎◌, inl, inr}
pub use mathlib.Core.Bool.{Bool, true, false, ◌&&◌, ◌||◌}
pub use mathlib.Core.Option.{Option, none, some}
pub use mathlib.Core.List.{List, [], ◌∷◌, ◌++◌, map, Memᴰ}
pub use native.Mathlib.Omega.{arith}
