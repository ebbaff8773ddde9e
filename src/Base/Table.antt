-- ===== src/Base/Table.antt =====
-- A test of all numbers under a bound, by evaluation.
use Prim.Native.Nat.{ℕ, zero, suc, ◌<◌}
use mathlib.Core.Path.{◌≡◌}
use mathlib.Core.Bool.{Bool, true, false}
use native.Mathlib.Omega.{arith}
use boot.Base.Tests.{if◌then◌else◌}

module _ (test : ℕ → Bool) where
  unfoldable pub passes_under : ℕ → Bool
  passes_under zero = true
  passes_under (suc bound) = if test bound then passes_under bound else false

  pub passes_under-each : (bound k : ℕ) → passes_under bound ≡ true → k < bound → test k ≡ true
  unfolding passes_under
  passes_under-each zero k all below = elim below [ ]
  passes_under-each (suc bound) k all below = ground (arith, passes_under-each bound k)
