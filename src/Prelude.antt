-- ===== src/Prelude.antt =====
-- What the modules share: the libraries' names, passed on, and small helpers on numbers, lists,
-- optional values and dictionaries.
mod Tests
mod Lists
mod Int
mod Dict
mod Sizes
mod Fuel
pub mod Checked
pub use Tests.*
pub use Lists.*
unfoldable pub use Int.*
pub use Dict.*
pub use Sizes.*
pub use Fuel.*
pub use Prim.Native.Nat.{ℕ, zero, suc, ◌+◌, ◌-◌, ◌*◌, ◌/◌, ◌%◌, ◌^◌, ◌≤◌, ◌<◌}
pub use Prim.Native.String.{String, ◌++◌ as str_append}
pub use mathlib.Core.Path.{◌≡◌, refl, sym, ap, ◌∙◌}
pub use mathlib.Core.Logic.{◌≢◌, ◌↔◌, ◌⊎◌, inl, inr}
pub use mathlib.Core.Bool.{Bool, true, false, not, ◌&&◌, ◌||◌}
pub use mathlib.Core.Option.{Option, none, some}
pub use mathlib.Core.List.{List, [], ◌∷◌, ◌++◌, map}
pub use native.Mathlib.Omega.{arith}
pub use text.Mathlib.Text.{◌==◌ as str_eq}
pub use text.Mathlib.TextEquality.{eq_iff}
