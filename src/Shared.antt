-- ===== src/Shared.antt =====
-- The names that the other modules share: the libraries', passed on, and those of the children.
mod Tests
mod Tables
mod Statements
mod Codes
mod Keys
mod Invariants
pub use Tests.*
pub use Statements.*
unfoldable pub use Tables.{find_row, update_rows, count_rows, any_row, select_rows}
pub use Tables.{
  length, length-append, find-update, count-update, count-shrink, count-append, find-append,
  any-append, update-fresh, any-update, find-none_of_any, find-eq_some, count-pos_of_find,
  any-of_find, any-none_of_find,
}
pub use Invariants.*
pub use Keys.*
unfoldable pub use Codes.*
pub use Prim.Native.Nat.{ℕ, zero, suc, ◌+◌, ◌-◌, ◌*◌, ◌/◌, ◌%◌, ◌≤◌, ◌<◌}
pub use Prim.Native.String.{String}
pub use mathlib.Core.Path.{◌≡◌, refl, sym, ap, ◌∙◌, subst}
pub use mathlib.Core.Logic.{◌≢◌, ◌↔◌, ◌⊎◌, inl, inr}
pub use mathlib.Core.Bool.{Bool, true, false, not, ◌&&◌, ◌||◌}
pub use mathlib.Core.Option.{Option, none, some}
pub use mathlib.Core.List.{List, [], ◌∷◌, ◌++◌, map}
pub use native.Mathlib.Omega.{arith}
pub use text.Mathlib.TextEquality.{eq_iff}
