-- ===== src/Web/Csrf/Bits.antt =====
-- crates/app-web/src/csrf.rs: exclusive or of bytes undoes itself, and tells bytes apart.
use gavel.Shared.{
  ℕ, zero, suc, ◌+◌, ◌*◌, ◌/◌, ◌%◌, ◌^◌, ◌<◌, ◌≡◌, refl, ap, arith, [], ◌∷◌, All, length,
}
use gavel.Shared.Bytes.{Bytes}
use gavel.Web.Csrf.Defs.{xor_bits, or_bits, xor, xor_all, fold_differences}

power_suc : (n : ℕ) → 2 ^ suc n ≡ 2 * 2 ^ n
power_suc n = ground arith

xor_bits-lt : (n a b : ℕ) → xor_bits n a b < 2 ^ n
unfolding xor_bits
xor_bits-lt zero a b = ground arith
xor_bits-lt (suc n) a b = omega (arith, xor_bits-lt n (a / 2) (b / 2), power_suc n)

xor_bits-twice : (n a b : ℕ) → b < 2 ^ n → xor_bits n a (xor_bits n a b) ≡ b
unfolding xor_bits
xor_bits-twice zero a b h = ground arith
xor_bits-twice (suc n) a b h =
    let half : ((a + b) % 2 + 2 * xor_bits n (a / 2) (b / 2)) / 2 ≡ xor_bits n (a / 2) (b / 2) =
      omega arith in
    rw (half, xor_bits-twice n (a / 2) (b / 2) (omega (arith, power_suc n))) (omega arith)

xor_bits-zero : (n a b : ℕ) → a < 2 ^ n → b < 2 ^ n → xor_bits n a b ≡ 0 → a ≡ b
unfolding xor_bits
xor_bits-zero zero a b h k e = ground arith
xor_bits-zero (suc n) a b h k e = omega (
  arith,
  xor_bits-zero n (a / 2) (b / 2) (omega (arith, power_suc n)) (omega (arith, power_suc n))
      (omega arith),
)

xor_bits-same : (n a : ℕ) → xor_bits n a a ≡ 0
unfolding xor_bits
xor_bits-same zero a = refl
xor_bits-same (suc n) a = omega (arith, xor_bits-same n (a / 2))

or_bits-zero : (n a b : ℕ) → a < 2 ^ n → b < 2 ^ n → or_bits n a b ≡ 0 → (a ≡ 0) × (b ≡ 0)
unfolding or_bits
or_bits-zero zero a b h k e = ground arith
or_bits-zero (suc n) a b h k e =
    let (p, q) =
      or_bits-zero n (a / 2) (b / 2) (omega (arith, power_suc n)) (omega (arith, power_suc n))
        (ground arith) in
    (ground (arith, p), ground (arith, q))

or_bits-lt : (n a b : ℕ) → or_bits n a b < 2 ^ n
unfolding or_bits
or_bits-lt zero a b = ground arith
or_bits-lt (suc n) a b = ground (arith, or_bits-lt n (a / 2) (b / 2), power_suc n)

abbrev pub IsByte : ℕ → Type 0
IsByte b = b < 256

pub xor_all-IsByte : (xs ys : Bytes) → All IsByte (xor_all xs ys)
xor_all-IsByte [] ys = tt
xor_all-IsByte (x ∷ xs) [] = tt
xor_all-IsByte (x ∷ xs) (y ∷ ys) = (xor_bits-lt 8 x y, xor_all-IsByte xs ys)

pub length-xor_all : (xs ys : Bytes) → length xs ≡ length ys → length (xor_all xs ys) ≡ length ys
length-xor_all [] ys h = h
length-xor_all (x ∷ xs) [] h = absurd (omega arith)
length-xor_all (x ∷ xs) (y ∷ ys) h = ap suc (length-xor_all xs ys (omega arith))

pub xor_all-twice :
    (xs ys : Bytes) → length xs ≡ length ys → All IsByte ys → xor_all xs (xor_all xs ys) ≡ ys
xor_all-twice [] [] h b = refl
xor_all-twice [] (y ∷ ys) h b = absurd (omega arith)
xor_all-twice (x ∷ xs) [] h b = absurd (omega arith)
xor_all-twice (x ∷ xs) (y ∷ ys) h b =
    rw (xor_bits-twice 8 x y b.0, xor_all-twice xs ys (omega arith) b.1) refl

fold_zero : (acc : ℕ) (xs ys : Bytes) → acc < 256 → fold_differences acc xs ys ≡ 0 → acc ≡ 0
fold_zero acc [] ys h e = e
fold_zero acc (x ∷ xs) [] h e = e
fold_zero acc (x ∷ xs) (y ∷ ys) h e =
    (or_bits-zero 8 acc (xor x y) h (xor_bits-lt 8 x y)
      (fold_zero (or_bits 8 acc (xor x y)) xs ys (or_bits-lt 8 acc (xor x y)) e)).0

-- Texts of bytes are found equal only where they are.
pub fold_differences_eq :
    (acc : ℕ) (xs ys : Bytes)
    → acc < 256
    → All IsByte xs
    → All IsByte ys
    → length xs ≡ length ys
    → fold_differences acc xs ys ≡ 0
    → xs ≡ ys
fold_differences_eq acc [] [] h a b l e = refl
fold_differences_eq acc [] (y ∷ ys) h a b l e = absurd (omega arith)
fold_differences_eq acc (x ∷ xs) [] h a b l e = absurd (omega arith)
fold_differences_eq acc (x ∷ xs) (y ∷ ys) h a b l e =
    let zero_step = fold_zero (or_bits 8 acc (xor x y)) xs ys (or_bits-lt 8 acc (xor x y)) e in
    let same : x ≡ y =
      xor_bits-zero 8 x y a.0 b.0
        (or_bits-zero 8 acc (xor x y) h (xor_bits-lt 8 x y) zero_step).1 in
    let rest : xs ≡ ys =
      fold_differences_eq (or_bits 8 acc (xor x y)) xs ys (or_bits-lt 8 acc (xor x y)) a.1 b.1
        (omega arith) e in
    ground arith

or_same : (x : ℕ) → or_bits 8 0 (xor x x) ≡ 0
unfolding or_bits
or_same x = rw (xor_bits-same 8 x) refl

pub fold_differences-same : (xs : Bytes) → fold_differences 0 xs xs ≡ 0
fold_differences-same [] = refl
fold_differences-same (x ∷ xs) = rw (or_same x) (fold_differences-same xs)
