-- ===== src/Base.antt =====
-- The names that the other modules share: those of the libraries, passed on, and the children's.
mod Tests
mod Lists
mod Text
mod Outcome
mod Reasons
pub mod Int
pub use Tests.*
pub use Lists.*
pub use Text.*
unfoldable pub use Text.{str_ltb}
pub use Outcome.*
pub use Reasons.*
pub use Prim.Native.String.{◌++◌ as str_append}
pub use Prim.Native.Nat.{ℕ, zero, suc, ◌+◌, ◌-◌, ◌*◌, ◌/◌, ◌%◌, ◌^◌, ◌≤◌, ◌<◌, min, max}
pub use Prim.Native.String.{String}
pub use mathlib.Core.Path.{◌≡◌, refl, sym, ap, subst, ◌∙◌}
pub use mathlib.Core.Logic.{◌≢◌, ◌↔◌, ◌⊎◌, inl, inr}
pub use mathlib.Core.Bool.{Bool, true, false, ◌&&◌, ◌||◌, not}
pub use mathlib.Core.Option.{Option, none, some}
pub use mathlib.Core.List.{List, [], ◌∷◌, ◌++◌, map}
pub use native.Mathlib.Omega.{arith}
pub use text.Mathlib.TextEquality.{eq_iff}
pub use text.Mathlib.Text.{◌==◌ as str_eq}
