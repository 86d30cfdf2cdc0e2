-- ===== src/Base.antt =====
-- The names that all modules share: the libraries', passed on, Boolean tests and the equality
-- interface (Base/Tests), lists as database tables (Base/Rows), dictionaries (Base/Dict) and
-- Python's string methods (Base/Text).
mod Tests
mod Rows
pub mod Dict
pub mod Validated
pub mod Text
pub mod Int
pub mod Decimal
pub use Tests.*
pub use Rows.*
pub use Prim.Native.Nat.{ℕ, zero, suc, ◌+◌, ◌-◌, ◌*◌, ◌/◌, ◌%◌, ◌^◌, ◌≤◌, ◌<◌, min, max}
pub use Prim.Native.String.{String}
pub use mathlib.Core.Path.{◌≡◌, refl, sym, ap, ◌∙◌}
pub use mathlib.Core.Logic.{◌≢◌, ◌↔◌, ◌⊎◌, inl, inr}
pub use mathlib.Core.Bool.{Bool, true, false, not, ◌&&◌, ◌||◌}
pub use mathlib.Core.Option.{Option, none, some}
pub use mathlib.Core.List.{List, [], ◌∷◌, ◌++◌, map}
pub use native.Mathlib.Omega.{arith}
