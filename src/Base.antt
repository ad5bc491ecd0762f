-- ===== src/Base.antt =====
-- The names that the modules share: library names passed on, and those of the children.
pub mod Tests
pub mod Lists
pub mod Texts
pub mod Values
pub mod Outcomes
pub mod Dicts
pub mod Tables
pub mod Runs
pub mod Integers
pub mod Decimals
pub mod Exact
pub mod NumberTexts
pub mod Sets
pub mod Branches
pub use Prim.Native.Nat.{ℕ, zero, suc, ◌+◌, ◌-◌, ◌*◌, ◌/◌, ◌%◌, ◌^◌, ◌≤◌, ◌<◌, max}
pub use mathlib.Core.Path.{◌≡◌, refl, sym, ap, subst, ◌∙◌}
pub use mathlib.Core.Logic.{◌≢◌, ◌⊎◌, ◌↔◌, inl, inr}
pub use mathlib.Core.Bool.{Bool, true, false, not, ◌&&◌, ◌||◌}
pub use mathlib.Core.Option.{Option, none, some}
pub use mathlib.Core.List.{List, [], ◌∷◌, ◌++◌, map, append_assoc, append-nil}
pub use native.Mathlib.Omega.{arith}
unfoldable pub use Tests.*
unfoldable pub use Lists.*
unfoldable pub use Texts.*
unfoldable pub use Values.*
unfoldable pub use Outcomes.*
unfoldable pub use Dicts.*
unfoldable pub use Tables.*
unfoldable pub use Runs.*
unfoldable pub use Integers.*
unfoldable pub use Decimals.*
unfoldable pub use NumberTexts.*
unfoldable pub use Sets.*
unfoldable pub use Branches.*
