-- ===== src/Base.antt =====
-- The names that all modules share: the libraries', passed on, and those of the children: text
-- equality and conditionals (Tests), Go's maps (Dict), lists (Lists), panics (Panics), text
-- prefixes (Prefix) and texts up to case (Fold).
mod Tests
mod Lists
mod Panics
mod Prefix
mod Fold
pub mod Dict
unfoldable pub use Tests.*
unfoldable pub use Lists.*
unfoldable pub use Panics.*
unfoldable pub use Prefix.*
unfoldable pub use Fold.*
pub use Prim.Native.Nat.{ℕ, zero, suc, ◌+◌, ◌-◌, ◌≤◌, ◌<◌}
pub use Prim.Native.String.{String, ◌++◌ as ◌<>◌}
pub use mathlib.Core.Path.{◌≡◌, refl, sym, ap, ◌∙◌, subst}
pub use mathlib.Core.Logic.{◌≢◌, ◌↔◌, ◌⊎◌, inl, inr}
pub use mathlib.Core.Bool.{Bool, true, false, ◌&&◌, ◌||◌, not}
pub use mathlib.Core.Option.{Option, none, some}
pub use mathlib.Core.List.{List, [], ◌∷◌, ◌++◌, map}
pub use native.Mathlib.Omega.{arith}
