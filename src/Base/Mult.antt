-- ===== src/Base/Mult.antt =====
-- Multiples of one number, in order.
use Prim.Native.Nat.{ℕ, ◌+◌, ◌*◌, ◌≤◌, ◌<◌}
use native.Mathlib.Omega.{arith}

pub multiple_lt : (m a b : ℕ) → a < b → a * m + m ≤ b * m
multiple_lt m a b h = grind arith

pub multiple_le : (m a b : ℕ) → a ≤ b → a * m ≤ b * m
multiple_le m a b h = grind arith
