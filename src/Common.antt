-- ===== src/Common.antt =====
-- The names that the other modules share: the libraries' names passed on, Boolean tests, options
-- and lists over the native numbers, and Python's truthiness of texts.
mod Tests
mod Lists
mod Options
mod Errors
mod Text
mod Doubling
mod Sorting
pub use Tests.*
pub use Lists.*
pub use Options.*
pub use Errors.*
pub use Doubling.*
pub use Text.{◌+++◌}
pub use Sorting.{All-insert_by, All-sort_by, All-filter_of, All-unsorted, length-sort_by}
unfoldable pub use Sorting.{insert_by, sort_by}
unfoldable pub use Text.{text_length, prefix, rstrip, join_words}
pub use Prim.Native.Nat.{ℕ, zero, suc, ◌+◌, ◌-◌, ◌*◌, ◌^◌, ◌≤◌, ◌<◌, min, max}
pub use Prim.Native.String.{String}
pub use mathlib.Core.Path.{◌≡◌, refl, sym, ap, ◌∙◌}
pub use mathlib.Core.Logic.{◌≢◌, ◌↔◌, ◌⊎◌, inl, inr}
pub use mathlib.Core.Bool.{Bool, true, false, not, ◌&&◌, ◌||◌}
pub use mathlib.Core.Option.{Option, none, some}
pub use mathlib.Core.List.{List, [], ◌∷◌, ◌++◌, map}
pub use native.Mathlib.Omega.{arith}
pub use text.Mathlib.Text.{◌==◌ as str_eq}
pub use text.Mathlib.TextEquality.{eq_iff}
