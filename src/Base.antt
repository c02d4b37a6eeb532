-- ===== src/Base.antt =====
-- What every component shares: library names passed on, Boolean tests and lists over the native
-- numbers, signed integers with C's division, and C strings as lists of bytes.
mod Tests
mod Lists
mod Int
mod Strings
mod Decimal
mod Padded
pub use Tests.*
pub use Lists.*
unfoldable pub use Int.*
pub use Strings.*
unfoldable pub use Decimal.{show_ℤ, digits, value}
pub use Decimal.{show_ℤ-free, show_ℤ-injective, show-pos-free, value-digits}
unfoldable pub use Padded.{show_padded, show_hex, show_upper_hex}
pub use Padded.{show_padded-free, show_padded-injective}
pub use Prim.Native.Nat.{ℕ, zero, suc, ◌+◌, ◌-◌, ◌*◌, ◌/◌, ◌%◌, ◌^◌, ◌≤◌, ◌<◌}
pub use mathlib.Core.Path.{◌≡◌, refl, sym, ap, ap₂, subst, ◌∙◌}
pub use mathlib.Core.Logic.{◌≢◌, ◌↔◌, ◌⊎◌, inl, inr}
pub use mathlib.Core.Bool.{Bool, true, false, not, ◌&&◌, ◌||◌}
pub use mathlib.Core.Option.{Option, none, some}
pub use mathlib.Core.List.{List, [], ◌∷◌, ◌++◌, map}
pub use native.Mathlib.Omega.{arith}
