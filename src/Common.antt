-- ===== src/Common.antt =====
-- What the other modules share: library names passed on, Boolean tests, lists measured by native
-- numbers, signed integers (JavaScript's bigint), texts and the results of code that may throw.
mod Tests
mod Lists
mod Throws
pub mod Int
pub mod Text
pub mod Numeral
pub mod Scan
pub mod Map
pub use Tests.*
pub use Lists.*
pub use Throws.*
pub use Prim.Native.Nat.{ℕ, zero, suc, ◌+◌, ◌-◌, ◌*◌, ◌/◌, ◌%◌, ◌^◌, ◌≤◌, ◌<◌}
pub use mathlib.Core.Path.{◌≡◌, refl, sym, ap, ◌∙◌}
pub use mathlib.Core.Logic.{◌≢◌, ◌↔◌, ◌⊎◌, inl, inr}
pub use mathlib.Core.Bool.{Bool, true, false, not, ◌&&◌, ◌||◌}
pub use mathlib.Core.Option.{Option, none, some}
pub use mathlib.Core.List.{List, [], ◌∷◌, ◌++◌, map, append_assoc, append-nil}
pub use native.Mathlib.Omega.{arith}
