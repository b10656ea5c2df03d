-- ===== src/Prelude/Powers.antt =====
-- Powers of two, for delays that double.
use Prim.Native.Nat.{ℕ, zero, suc, ◌*◌, ◌^◌, ◌≤◌, ◌<◌}
use mathlib.Core.Path.{◌≡◌}
use native.Mathlib.Omega.{arith}

pub pow_pos : (n : ℕ) → 0 < 2 ^ n
pow_pos zero = omega arith
pow_pos (suc n) = omega (arith, pow_pos n)

pub pow_suc : (d n : ℕ) → (2 * d) * 2 ^ n ≡ d * 2 ^ suc n
pow_suc d n = grind arith

pub le_mul : (d k : ℕ) → 0 < k → d ≤ d * k
le_mul d zero h = absurd (omega arith)
le_mul d (suc k) h = omega arith
