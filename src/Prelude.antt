-- ===== src/Prelude.antt =====
-- The names that the other modules share: the libraries', passed on, and the Boolean tests, lists
-- and outcomes of fallible code of the three children.
mod Tests
mod Lists
mod Outcome
mod Predicates
mod Chains
mod Maps
mod Options
mod Texts
mod Strings
mod TextMaps
pub use Tests.*
pub use Lists.*
pub use Outcome.*
pub use Predicates.*
pub use Chains.*
unfoldable pub use Maps.*
pub use Options.*
unfoldable pub use Texts.*
unfoldable pub use Strings.*
unfoldable pub use TextMaps.*
pub use Prim.Native.Nat.{ℕ, zero, suc, ◌+◌, ◌-◌, ◌*◌, ◌/◌, ◌%◌, ◌^◌, ◌≤◌, ◌<◌, min, max}
pub use Prim.Native.String.{String}
pub use mathlib.Core.Path.{◌≡◌, refl, sym, ap, ap₂, ◌∙◌, subst}
pub use mathlib.Core.Logic.{◌≢◌, ◌↔◌, ◌⊎◌, inl, inr}
pub use mathlib.Core.Bool.{Bool, true, false, not, ◌&&◌, ◌||◌}
pub use mathlib.Core.Option.{Option, none, some}
pub use mathlib.Core.List.{List, [], ◌∷◌, ◌++◌, map, append-nil, append_assoc}
pub use native.Mathlib.Omega.{arith}
