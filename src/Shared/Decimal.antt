-- ===== src/Shared/Decimal.antt =====
-- Numbers as decimal bytes, what `{n}` writes and `parse::<u64>` reads, and `split` at a byte.
use Prim.Native.Nat.{ℕ, zero, suc, ◌+◌, ◌-◌, ◌*◌, ◌/◌, ◌%◌, ◌≤◌, ◌<◌}
use mathlib.Core.Path.{◌≡◌, refl, ap, sym, ◌∙◌}
use mathlib.Core.Logic.{inl, inr}
use mathlib.Core.Bool.{Bool, false, ◌&&◌}
use mathlib.Core.Option.{Option, none, some}
use mathlib.Core.List.{[], ◌∷◌, ◌++◌}
use native.Mathlib.Omega.{arith}
use gavel.Shared.Tests.{if◌then◌else◌, ◌==◌, ltb, leb, Bool-cases, u64_max}
use gavel.Shared.Lists.{All, length, length-append}
use gavel.Shared.Bytes.{Bytes}

-- A number has at most as many digits as its value plus one.
unfoldable pub digits : ℕ → ℕ → Bytes
digits zero n = []
digits (suc fuel) n =
    let front = digits fuel (n / 10) in
    if ltb n 10 then (48 + n) ∷ [] else front ++ (48 + n % 10) ∷ []

unfoldable pub decimal : ℕ → Bytes
decimal n = digits (n + 1) n

abbrev pub is_digit : ℕ → Bool
is_digit c = leb 48 c && leb c 57

-- The digits after a number that has been read.
unfoldable pub read_digits : ℕ → Bytes → Option ℕ
read_digits n [] = some n
read_digits n (c ∷ s) =
    let m = n * 10 + (c - 48) in
    let rest = read_digits m s in if is_digit c && leb m u64_max then rest else none

unfoldable pub parse_u64 : Bytes → Option ℕ
parse_u64 [] = none
parse_u64 (c ∷ []) = read_digits 0 (c ∷ [])
parse_u64 (c ∷ d ∷ s) = if c == 43 then read_digits 0 (d ∷ s) else read_digits 0 (c ∷ d ∷ s)

append_last : (xs : Bytes) (d : ℕ) (s : Bytes) → (xs ++ d ∷ []) ++ s ≡ xs ++ d ∷ s
append_last [] d s = refl
append_last (x ∷ xs) d s = ap (λ r. x ∷ r) (append_last xs d s)

append_nil : (xs : Bytes) → xs ++ [] ≡ xs
append_nil [] = refl
append_nil (x ∷ xs) = ap (λ r. x ∷ r) (append_nil xs)

last_digit :
    (n : ℕ) (s : Bytes)
    → 10 ≤ n
    → n ≤ u64_max
    → read_digits (n / 10) ((48 + n % 10) ∷ s) ≡ read_digits n s
unfolding read_digits
last_digit n s h b =
    let e : n / 10 * 10 + (48 + n % 10 - 48) ≡ n = omega arith in rw e (ground arith)

read-digits :
    (fuel n : ℕ) (s : Bytes)
    → n < fuel
    → n ≤ u64_max
    → read_digits 0 (digits fuel n ++ s) ≡ read_digits n s
unfolding digits read_digits
read-digits zero n s h b = absurd (omega arith)
read-digits (suc fuel) n s h b = elim (Bool-cases (ltb n 10)) [
  | inl e ↦ rw e (ground arith)
  | inr e ↦ rw e (
      ap (read_digits 0) (append_last (digits fuel (n / 10)) (48 + n % 10) s)
      ∙ read-digits fuel (n / 10) ((48 + n % 10) ∷ s) (ground arith) (ground arith)
      ∙ last_digit n s (ground arith) b)
]

All-append {κ} : (P : ℕ → Type κ) (xs ys : Bytes) → All P xs → All P ys → All P (xs ++ ys)
All-append P [] ys a b = b
All-append P (x ∷ xs) ys a b = (a.0, All-append P xs ys a.1 b)

abbrev pub IsDigit : ℕ → Type 0
IsDigit c = (48 ≤ c) × (c ≤ 57)

digits-IsDigit : (fuel n : ℕ) → All IsDigit (digits fuel n)
unfolding digits
digits-IsDigit zero n = tt
digits-IsDigit (suc fuel) n = elim (Bool-cases (ltb n 10)) [
  | inl e ↦ rw e (ground arith)
  | inr e ↦ rw e (
      All-append IsDigit (digits fuel (n / 10)) ((48 + n % 10) ∷ []) (digits-IsDigit fuel (n / 10))
        (ground arith))
]

pub decimal-IsDigit : (n : ℕ) → All IsDigit (decimal n)
unfolding decimal
decimal-IsDigit n = digits-IsDigit (n + 1) n

length-digits : (fuel n : ℕ) → n < fuel → 1 ≤ length (digits fuel n)
unfolding digits
length-digits zero n h = absurd (omega arith)
length-digits (suc fuel) n h = elim (Bool-cases (ltb n 10)) [
  | inl e ↦ rw e (omega arith)
  | inr e ↦ rw e (omega (arith, length-append (digits fuel (n / 10)) ((48 + n % 10) ∷ [])))
]

parse_text :
    (t : Bytes) (r : Option ℕ)
    → 1 ≤ length t
    → All IsDigit t
    → read_digits 0 t ≡ r
    → parse_u64 t ≡ r
unfolding parse_u64
parse_text [] r l d e = absurd (omega arith)
parse_text (c ∷ []) r l d e = e
parse_text (c ∷ x ∷ s) r l d e = let digit : (c == 43) ≡ false = ground arith in rw digit e

-- `parse::<u64>` reads what `{n}` wrote.
pub parse_u64-decimal : (n : ℕ) → n ≤ u64_max → parse_u64 (decimal n) ≡ some n
unfolding decimal read_digits
parse_u64-decimal n b =
    parse_text (digits (n + 1) n) (some n) (length-digits (n + 1) n (omega arith))
      (digits-IsDigit (n + 1) n)
      (ap (read_digits 0) (sym (append_nil (digits (n + 1) n)))
        ∙ read-digits (n + 1) n [] (omega arith) b)

-- A zero at the front changes nothing.
pub parse_u64-zero_decimal : (n : ℕ) → n ≤ u64_max → parse_u64 (48 ∷ decimal n) ≡ some n
unfolding decimal read_digits
parse_u64-zero_decimal n b =
    parse_text (48 ∷ digits (n + 1) n) (some n) (omega arith)
      (ground arith, digits-IsDigit (n + 1) n)
      (ap (read_digits 0) (sym (append_nil (digits (n + 1) n)))
        ∙ read-digits (n + 1) n [] (omega arith) b)
