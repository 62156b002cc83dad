-- ===== src/Base.antt =====
-- The names that the other modules share: the libraries', passed on, and those of the children
-- below. Numbers are the native ones; a machine word is a number with its wrap-around written out.
mod Tests
mod Lists
mod Int
mod Memory
mod Buffers
pub use Tests.*
pub use Lists.*
unfoldable pub use Int.*
unfoldable pub use Memory.*
pub use Buffers.*
pub use Prim.Native.Nat.{ℕ, zero, suc, ◌+◌, ◌-◌, ◌*◌, ◌/◌, ◌%◌, ◌^◌, ◌≤◌, ◌<◌, min, max}
pub use mathlib.Core.Path.{◌≡◌, refl, sym, ap, ap₂, ◌∙◌, subst}
pub use mathlib.Core.Logic.{◌≢◌, ◌↔◌, ◌⊎◌, inl, inr}
pub use mathlib.Core.Bool.{Bool, true, false, not, ◌&&◌, ◌||◌}
pub use mathlib.Core.Option.{Option, none, some}
pub use mathlib.Core.List.{List, [], ◌∷◌, ◌++◌, map}
pub use native.Mathlib.Omega.{arith}
unfoldable pub use native.Mathlib.Decide.{ℕ_discrete}
