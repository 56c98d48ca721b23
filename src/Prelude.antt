-- ===== src/Prelude.antt =====
-- The names that every module of the development shares: the libraries', passed on, and those of
-- the children (tests on numbers, lists over the native numbers, results with an error).
mod Tests
mod Lists
mod Results
mod Int
mod Text
mod Sorting
mod Orders
pub use Tests.*
pub use Lists.*
pub use Results.*
pub use Int.*
pub use Text.*
unfoldable pub use Sorting.{leb_codes, sorted}
pub use Sorting.{
  insert_sorted, all-sorted, all-sorted_eq, map-sorted, All-sorted, length-sorted, sorted-In,
}
pub use Orders.{
  All-filter, In-filter, In-sorted, Ordered, Ordered-filter, sorted-Ordered, leb_codes-total,
  leb_codes_trans, codes-antisym,
}
pub use Prim.Native.Nat.{ℕ, zero, suc, ◌+◌, ◌-◌, ◌*◌, ◌/◌, ◌%◌, ◌≤◌, ◌<◌}
pub use Prim.Native.String.{String}
pub use mathlib.Core.Path.{◌≡◌, refl, sym, ap, ◌∙◌, subst}
pub use mathlib.Core.Logic.{◌≢◌, ◌↔◌, ◌⊎◌, inl, inr}
pub use mathlib.Core.Bool.{Bool, true, false, ◌&&◌, ◌||◌, not}
pub use mathlib.Core.Option.{Option, none, some}
pub use mathlib.Core.List.{List, [], ◌∷◌, ◌++◌, map}
pub use native.Mathlib.Omega.{arith}
pub use text.Mathlib.Text.{◌==◌ as str_eq}
pub use text.Mathlib.TextEquality.{eq_iff}
pub use text.Mathlib.TextPositions.{eq_refl}
