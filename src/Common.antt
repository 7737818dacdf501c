-- ===== src/Common.antt =====
-- The names that every part shares: the libraries', passed on, tests on numbers and texts,
-- options, results, and the readings of a clock.
mod Lists
mod Every
mod Rows
mod Keys
mod Basics
mod Least
mod Sorting
mod Selected
mod Texts
mod Upsert
pub use Lists.*
pub use Every.*
pub use Rows.*
pub use Keys.*
pub use Basics.*
pub use Selected.*
pub use Texts.*
unfoldable pub use Least.*
unfoldable pub use Sorting.*
unfoldable pub use Upsert.*
pub use Prim.Native.Nat.{ℕ, zero, suc, ◌+◌, ◌-◌, ◌*◌, ◌/◌, ◌%◌, ◌^◌, ◌≤◌, ◌<◌, min, max}
pub use Prim.Native.String.{String}
pub use mathlib.Core.Path.{◌≡◌, refl, sym, ap, subst, ◌∙◌}
pub use mathlib.Core.Logic.{◌≢◌, ◌↔◌, ◌⊎◌, inl, inr}
pub use mathlib.Core.Bool.{Bool, true, false, not, ◌&&◌, ◌||◌}
pub use mathlib.Core.Option.{Option, none, some}
pub use mathlib.Core.List.{List, [], ◌∷◌, ◌++◌, map}
pub use native.Mathlib.Omega.{arith}
pub use text.Mathlib.TextEquality.{eq_iff}
