-- ===== src/Base.antt =====
-- Names that every other module shares: the libraries' names passed on, Boolean tests on the native
-- numbers, lists measured by native numbers, texts as lists of code points, and fallible results.
mod Tests
mod Lists
mod Results
pub mod State
mod Strings
mod Int
mod Sets
pub use Tests.*
unfoldable pub use Lists.*
pub use Results.*
unfoldable pub use Strings.*
unfoldable pub use Int.*
unfoldable pub use Sets.*
pub use Prim.Native.Nat.{ℕ, zero, suc, ◌+◌, ◌-◌, ◌*◌, ◌/◌, ◌%◌, ◌≤◌, ◌<◌, min, max}
pub use mathlib.Core.Path.{◌≡◌, refl, sym, ap, ◌∙◌, subst}
pub use mathlib.Core.Logic.{◌≢◌, ◌↔◌, ◌⊎◌, inl, inr}
pub use mathlib.Core.Bool.{Bool, true, false, not, ◌&&◌, ◌||◌}
pub use mathlib.Core.Option.{Option, none, some}
pub use mathlib.Core.List.{List, [], ◌∷◌, ◌++◌, map, reverse}
pub use native.Mathlib.Omega.{arith}
