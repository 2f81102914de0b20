-- ===== src/Prelude.antt =====
-- The names that the modules of this library share: the libraries' own, passed on, and the
-- project's tests, integers, row lists and results.
pub mod Tests
pub mod Int
pub mod Rows
pub mod Numbered
pub mod Select
pub mod Text
pub use Tests.*
unfoldable pub use Rows.*
pub use Numbered.*
pub use Select.*
pub use Text.*
pub use Prim.Native.Nat.{ℕ, zero, suc, ◌+◌, ◌-◌, ◌*◌, ◌/◌, ◌%◌, ◌^◌, ◌≤◌, ◌<◌, min}
pub use Prim.Native.String.{String}
pub use mathlib.Core.Path.{◌≡◌, refl, sym, ap, ◌∙◌, subst}
pub use mathlib.Core.Logic.{◌≢◌, ◌↔◌, ◌⊎◌, inl, inr}
pub use mathlib.Core.Bool.{Bool, true, false, not, ◌&&◌, ◌||◌}
pub use mathlib.Core.Option.{Option, none, some}
pub use mathlib.Core.List.{List, [], ◌∷◌, ◌++◌, map}
pub use native.Mathlib.Omega.{arith}
