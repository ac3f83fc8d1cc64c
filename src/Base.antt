-- ===== src/Base.antt =====
-- The names that the other modules share: the libraries', passed on, and those of the children
-- (tests on numbers, lists, the program's strings, its maps, its numbers).
mod Tests
mod Lists
mod Strings
pub mod Dict
pub mod Number
pub mod Result
pub mod Param
pub mod Prefix
pub mod Table
pub mod Rows
pub use Tests.*
pub use Lists.*
pub use Strings.{Text, text_eq_iff, text_eq_refl, any-Mem, Text-set}
unfoldable pub use Strings.{txt, text_eq, is_white, trim_start, trim, lower_unit, to_lower}
pub use Prim.Native.Nat.{ℕ, zero, suc, ◌+◌, ◌-◌, ◌*◌, ◌/◌, ◌%◌, ◌^◌, ◌≤◌, ◌<◌}
pub use mathlib.Core.Path.{◌≡◌, refl, sym, ap, subst, ◌∙◌}
pub use mathlib.Core.Logic.{◌≢◌, ◌↔◌, ◌⊎◌, inl, inr}
pub use mathlib.Core.Bool.{Bool, true, false, not, ◌&&◌, ◌||◌}
pub use mathlib.Core.Option.{Option, none, some}
pub use mathlib.Core.List.{List, [], ◌∷◌, ◌++◌, map, reverse}
pub use native.Mathlib.Omega.{arith}
unfoldable pub use native.Mathlib.Decide.{dec_lt, ℕ_discrete}
