-- ===== src/Prelude.antt =====
-- Names, tests, list lemmas and insertion-ordered maps that every component shares.
mod Tests
mod Equality
mod Lists
pub mod Dict
pub use Tests.*
pub use Lists.*
pub use Equality.{Eq}
unfoldable pub use Equality.{◌==◌, string_eq, option_eq, contains}
pub use Prim.Native.Nat.{ℕ, zero, suc, ◌+◌, ◌-◌, ◌*◌, ◌≤◌, ◌<◌}
pub use Prim.Native.String.{String}
pub use mathlib.Core.Path.{◌≡◌, refl, sym, ap, ◌∙◌, subst, fun_ext}
pub use mathlib.Core.Logic.{◌≢◌, ◌↔◌, ◌⊎◌, inl, inr}
pub use mathlib.Core.Bool.{Bool, true, false, not, ◌&&◌, ◌||◌}
pub use mathlib.Core.Option.{Option, none, some}
pub use mathlib.Core.List.{List, [], ◌∷◌, ◌++◌, map}
pub use native.Mathlib.Omega.{arith}
