-- ===== src/Base.antt =====
-- The names that the other modules share: numbers, tests, lists, machine words.
mod Tests
mod Lists
mod Words
mod Bits
mod Faults
mod Table
mod Perms
mod Mult
mod Copy
mod Counting
pub use Tests.*
pub use Lists.*
pub use Words.*
pub use Bits.*
pub use Faults.*
unfoldable pub use Table.*
pub use Perms.*
pub use Mult.*
pub use Copy.*
pub use Counting.*
pub use Prim.Native.Nat.{ℕ, zero, suc, ◌+◌, ◌-◌, ◌*◌, ◌/◌, ◌%◌, ◌^◌, ◌≤◌, ◌<◌}
pub use Prim.Native.Nat.{bit_and, bit_or, bit_xor, min, max}
pub use mathlib.Core.Path.{◌≡◌, refl, sym, ap, ◌∙◌}
pub use mathlib.Core.Logic.{◌≢◌, ◌↔◌, ◌⊎◌, inl, inr}
pub use mathlib.Core.Bool.{Bool, true, false, not, ◌&&◌, ◌||◌}
pub use mathlib.Core.Option.{Option, none, some}
pub use mathlib.Core.List.{List, [], ◌∷◌, ◌++◌, map}
pub use native.Mathlib.Omega.{arith}
