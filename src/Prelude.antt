-- ===== src/Prelude.antt =====
-- The names that every module shares: the libraries' numbers, lists and paths, passed on, and
-- the tests, list lemmas, machine words and texts of the children.
mod Tests
mod Lists
mod Int
mod Words
mod Text
pub mod Buffers
pub use Tests.*
pub use Lists.*
pub use Int.*
pub use Words.*
unfoldable pub use Text.*
pub use Prim.Native.Nat.{ℕ, zero, suc, ◌+◌, ◌-◌, ◌*◌, ◌/◌, ◌%◌, ◌^◌, ◌≤◌, ◌<◌, min}
pub use mathlib.Core.Path.{subst, ◌≡◌, refl, sym, ap, ◌∙◌}
pub use mathlib.Core.Logic.{◌≢◌, ◌↔◌, ◌⊎◌, inl, inr}
pub use mathlib.Core.Bool.{Bool, true, false, ◌&&◌, ◌||◌, not}
pub use mathlib.Core.Option.{Option, none, some}
pub use mathlib.Core.List.{List, [], ◌∷◌, ◌++◌, map}
pub use native.Mathlib.Omega.{arith}
