-- ===== src/Base/Products.antt =====
-- Order of products and sums of the native numbers.
use Prim.Native.Nat.{ℕ, ◌+◌, ◌*◌, ◌≤◌, ◌<◌}
use mathlib.Core.Path.{◌≡◌}
use native.Mathlib.Omega.{arith}

pub 0-add : (n : ℕ) → 0 + n ≡ n
0-add n = omega arith

-- The factor on the left grows, and the factor on the right.
pub mul-lt : (i j v : ℕ) → i < j → 0 < v → i * v < j * v
mul-lt i j v h p = grind arith

pub mul-le : (i j v : ℕ) → i ≤ j → i * v ≤ j * v
mul-le i j v h = grind arith

pub mul_mono : (i v w : ℕ) → v ≤ w → i * v ≤ i * w
mul_mono i v w h = grind arith
