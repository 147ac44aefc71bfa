-- ===== src/Shared/Ints.antt =====
-- Signed integers over the native numbers, and Rust's `as i32`.
use Prim.Native.Nat.{ℕ, zero, suc, ◌-◌, ◌%◌}
use gavel.Shared.Tests.{if◌then◌else◌, ltb}

pub data ℤ : Type 0 where
  pos : ℕ → ℤ
  negsuc : ℕ → ℤ

abbrev pub neg : ℕ → ℤ
neg zero = pos 0
neg (suc n) = negsuc n

-- `as i32` of a number that is not negative.
abbrev pub as_i32 : ℕ → ℤ
as_i32 n = let r = n % 4294967296 in if ltb r 2147483648 then pos r else neg (4294967296 - r)
