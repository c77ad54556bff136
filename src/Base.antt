-- ===== src/Base.antt =====
-- The names that all modules share: the libraries', passed on, and those of the children.
mod Tests
mod Lists
mod Text
mod Int
mod Sorting
pub use Tests.*
unfoldable pub use Lists.{any, find, select}
pub use Lists.*
pub use Int.*
unfoldable pub use Text.{text_length, contains, concat, join, split, has_prefix, pieces}
unfoldable pub use Sorting.{str_ltb, sort_slice}
pub use Sorting.{IsSorted, NotBefore, str_ltb-asym, str_ltb-negtrans, sort_slice-IsSorted}
pub use Text.{text_length-join, text_length-join_tail}
pub use Prim.Native.Nat.{ℕ, zero, suc, ◌+◌, ◌-◌, ◌*◌, ◌/◌, ◌≤◌, ◌<◌}
pub use Prim.Native.String.{String}
pub use mathlib.Core.Path.{◌≡◌, refl, sym, ap, subst, ◌∙◌}
pub use mathlib.Core.Logic.{◌≢◌, ◌↔◌, ◌⊎◌, inl, inr}
pub use mathlib.Core.Bool.{Bool, true, false, not, ◌&&◌, ◌||◌}
pub use mathlib.Core.Option.{Option, none, some}
pub use mathlib.Core.List.{List, [], ◌∷◌, ◌++◌, map}
pub use native.Mathlib.Omega.{arith}
pub use text.Mathlib.Text.{◌==◌ as str_eq}
pub use text.Mathlib.TextEquality.{eq_iff}
