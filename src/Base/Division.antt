-- ===== src/Base/Division.antt =====
-- Division that rounds up: `Math.ceil(a / b)` for whole numbers with b > 0.
use Prim.Native.Nat.{ℕ, ◌+◌, ◌-◌, ◌*◌, ◌/◌, ◌≤◌, ◌<◌}
use native.Mathlib.Omega.{arith}

abbrev pub ceil_div : ℕ → ℕ → ℕ
ceil_div a b = (a + b - 1) / b

-- The two halves of its defining property.
pub le-ceil_div-mul : (a b : ℕ) → 0 < b → a ≤ ceil_div a b * b
le-ceil_div-mul a b h = grind arith

pub ceil_div-le : (a b c : ℕ) → 0 < b → a ≤ c * b → ceil_div a b ≤ c
ceil_div-le a b c h k = grind arith
