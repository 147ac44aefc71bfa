-- ===== src/Shared/Float.antt =====
-- The arithmetic of f64 on finite numbers that are not negative, rounded to the nearest number with
-- 53 bits and, half way, to the even one. Every such number is a multiple of 2 ^ -1074, and is
-- written as how many it is; no sum or product here comes near the largest f64.
pub mod Rounding
use Prim.Native.Nat.{ℕ, zero, suc, ◌+◌, ◌-◌, ◌*◌, ◌/◌, ◌%◌, ◌^◌}
use mathlib.Core.Bool.{true, false}
use gavel.Shared.Tests.{◌==◌, ltb, if◌then◌else◌}

abbrev pub F64 : Type 0
F64 = ℕ

abbrev pub one : F64
one = 2 ^ 1074

-- The distance of the numbers about `q`: what is left below 53 bits counts by 1.
unfoldable pub spacing : ℕ → ℕ → ℕ
spacing zero q = 1
spacing (suc fuel) q = elim (ltb q 9007199254740992) [ true ↦ 1 | false ↦ 2 * spacing fuel (q / 2) ]

-- How many times `u` goes into `a`, to the nearest, and half way to the even number.
abbrev pub nearest : ℕ → ℕ → ℕ
nearest a u =
    let q = a / u in
    let r = 2 * (a % u) in if ltb r u then q else if r == u then q + q % 2 else q + 1

-- The f64 nearest to `a / b`, for `b` other than 0. A number has fewer halvings than units.
unfoldable pub round_to_f64 : ℕ → ℕ → F64
round_to_f64 a b = let s = spacing (a / b) (a / b) in nearest a (s * b) * s

-- `n as f64`.
abbrev pub of_nat : ℕ → F64
of_nat n = round_to_f64 (n * one) 1

abbrev pub add : F64 → F64 → F64
add x y = round_to_f64 (x + y) 1

-- The difference, and 0 where `y` is greater.
abbrev pub sub : F64 → F64 → F64
sub x y = round_to_f64 (x - y) 1

abbrev pub mul : F64 → F64 → F64
mul x y = round_to_f64 (x * y) one

abbrev pub div : F64 → F64 → F64
div x y = round_to_f64 (x * one) y

-- `floor` and `round`, as integers.
abbrev pub floor_nat : F64 → ℕ
floor_nat x = x / one

abbrev pub round_nat : F64 → ℕ
round_nat x = (2 * x + one) / (2 * one)
