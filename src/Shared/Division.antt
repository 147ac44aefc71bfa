-- ===== src/Shared/Division.antt =====
-- Division by a number that is not known.
use Prim.Native.Nat.{ℕ, ◌/◌, ◌≤◌}
use native.Mathlib.Omega.{arith}
use native.Mathlib.Nat.{le-div_iff_mul-le, div-mul-le_self}

pub div_mono : (a b k : ℕ) → 1 ≤ k → a ≤ b → a / k ≤ b / k
div_mono a b k p h = (le-div_iff_mul-le p).1 (omega (arith, div-mul-le_self a k))
