-- ===== src/Market/Engine/Quantile.antt =====
-- crates/app-core/src/market/engine.rs, `Buckets::quantile`: order and bounds, for prices that are f64.
use gavel.Shared.{
  ℕ, zero, suc, ◌+◌, ◌-◌, ◌*◌, ◌/◌, ◌≤◌, ◌<◌, ◌≡◌, refl, sym, ap, ◌∙◌, subst, ◌⊎◌, ◌↔◌, inl, inr,
  min, max, false, ◌==◌, some, List, [], ◌∷◌, All, arith, length, Bool-cases, u64_max,
}
use native.Mathlib.Nat.{
  mul-le-mul_left, mul-le-mul_right, mul-one, mul_comm, add-mul, le-add_right, add-le-add, le_refl,
  le-div_iff_mul-le,
}
use gavel.Shared.Division.{div_mono}
use gavel.Shared.Float.{F64, one, round_to_f64, of_nat, add, sub, mul, round_nat}
use gavel.Shared.Float.Rounding.{IsF64, round_to_f64_mono, round_to_f64_exact, nat-IsF64}
use gavel.Shared.Sort.{From, IsAscending}
use gavel.Market.Defs.{Copper}
use gavel.Market.Engine.Defs.{Buckets, len, price_at, fraction, h_of, third, interpolate, quantile}

price_at-From : (a : ℕ) (xs : List ℕ) (i : ℕ) → From a xs → i < length xs → a ≤ price_at xs i
price_at-From a [] i s h = absurd (omega arith)
price_at-From a (x ∷ xs) zero s h = s.0
price_at-From a (x ∷ xs) (suc i) s h = omega (arith, price_at-From x xs i s.1 (omega arith), s.0)

pub price_at_mono :
    (a : ℕ) (xs : List ℕ) (i j : ℕ)
    → From a xs
    → i ≤ j
    → j < length xs
    → price_at xs i ≤ price_at xs j
price_at_mono a [] i j s h l = absurd (omega arith)
price_at_mono a (x ∷ xs) zero zero s h l = omega arith
price_at_mono a (x ∷ xs) zero (suc j) s h l = price_at-From x xs j s.1 (omega arith)
price_at_mono a (x ∷ xs) (suc i) zero s h l = absurd (omega arith)
price_at_mono a (x ∷ xs) (suc i) (suc j) s h l =
    price_at_mono x xs i j s.1 (omega arith) (omega arith)

ap2 {ℓ κ μ} :
    {A : Type ℓ} {B : Type κ} {C : Type μ} (f : A → B → C) {a b : A} {c d : B}
    → a ≡ b
    → c ≡ d
    → f a c ≡ f b d
ap2 f {b} {c} p q = ap (λ x. f x c) p ∙ ap (f b) q

one_positive : 1 ≤ one
one_positive = omega arith

exact : (x : ℕ) → IsF64 x → round_to_f64 x 1 ≡ x
exact x i = subst (λ y. round_to_f64 y 1 ≡ x) (mul-one x) (round_to_f64_exact x 1 (omega arith) i)

of_nat-exact : (n : ℕ) → n ≤ 9007199254740992 → of_nat n ≡ n * one
of_nat-exact n h = exact (n * one) (nat-IsF64 n h)

-- Half up, in units of `o`.
rounded_between :
    (o v low high : ℕ)
    → 1 ≤ o
    → low * o ≤ v
    → v ≤ high * o
    → (low ≤ (2 * v + o) / (2 * o)) × ((2 * v + o) / (2 * o) ≤ high)
rounded_between o v low high p l h =
    let lower : low ≤ (2 * v + o) / (2 * o) ↔ low * (2 * o) ≤ 2 * v + o =
      le-div_iff_mul-le (omega arith) in
    let upper : suc high ≤ (2 * v + o) / (2 * o) ↔ suc high * (2 * o) ≤ 2 * v + o =
      le-div_iff_mul-le (omega arith) in
    (grind (arith, lower), grind (arith, upper))

-- A part of a width that is an f64 is no greater, and the sum stays between its ends.
module _ (l w h t : ℕ) (left : IsF64 l) (wide : IsF64 w) (right : IsF64 h) (meet : l + w ≡ h)
    (part : t ≤ one) where
  abbrev sum : ℕ
  sum = round_to_f64 (l + round_to_f64 (t * w) one) 1

  part-le : round_to_f64 (t * w) one ≤ w
  part-le =
      let le : t * w ≤ w * one =
        subst (λ n. t * w ≤ n) (mul_comm one w) (mul-le-mul_right w part) in
      subst (λ n. round_to_f64 (t * w) one ≤ n) (round_to_f64_exact w one one_positive wide)
        (round_to_f64_mono (t * w) (w * one) one one_positive le)

  sum_bounds : (l ≤ sum) × (sum ≤ h)
  sum_bounds =
      let part_le = part-le in
      let low : l ≤ l + round_to_f64 (t * w) one = le-add_right l (round_to_f64 (t * w) one) in
      let high : l + round_to_f64 (t * w) one ≤ h = bounded (round_to_f64 (t * w) one) part_le in
      (
        subst (λ n. n ≤ sum) (exact l left)
            (round_to_f64_mono l (l + round_to_f64 (t * w) one) 1 (omega arith) low),
        subst (λ n. sum ≤ n) (exact h right)
            (round_to_f64_mono (l + round_to_f64 (t * w) one) h 1 (omega arith) high),
      )
    where
      bounded : (m : ℕ) → m ≤ w → l + m ≤ h
      bounded m k = omega arith

apart : (o low high : ℕ) → low ≤ high → low * o + (high - low) * o ≡ high * o
apart o low high h = sym (add-mul low (high - low) o) ∙ ap (λ n. n * o) (rejoin low high h)
  where
    rejoin : (a b : ℕ) → a ≤ b → a + (b - a) ≡ b
    rejoin a b h = omega arith

minus : (l w h : ℕ) → l + w ≡ h → h - l ≡ w
minus l w h e = omega arith

differ :
    (low high : ℕ)
    → low ≤ high
    → high ≤ 9007199254740992
    → sub (of_nat high) (of_nat low) ≡ (high - low) * one
differ low high h small =
    let gap : high * one - low * one ≡ (high - low) * one =
      minus (low * one) ((high - low) * one) (high * one) (apart one low high h) in
    ap2 (λ x y. round_to_f64 (x - y) 1) (of_nat-exact high small) (of_nat-exact low (omega arith))
    ∙ ap (λ x. round_to_f64 x 1) gap
    ∙ exact ((high - low) * one) (nat-IsF64 (high - low) (omega arith))

-- The number that `interpolate` rounds.
abbrev blend : ℕ → ℕ → F64 → F64
blend low high t = round_to_f64 (low * one + round_to_f64 (t * ((high - low) * one)) one) 1

interpolate_eq :
    (low high t : ℕ)
    → low ≤ high
    → high ≤ 9007199254740992
    → interpolate low high t ≡ min (round_nat (blend low high t)) u64_max
interpolate_eq low high t h small =
    ap2 (λ x y. min (round_nat (round_to_f64 (x + round_to_f64 (t * y) one) 1)) u64_max)
      (of_nat-exact low (omega arith)) (differ low high h small)

interpolate_bounds :
    (low high t : ℕ)
    → low ≤ high
    → high ≤ 9007199254740992
    → t ≤ one
    → (low ≤ interpolate low high t) × (interpolate low high t ≤ high)
interpolate_bounds low high t h small part =
    let (below, above) =
      sum_bounds (low * one) ((high - low) * one) (high * one) t (nat-IsF64 low (omega arith))
        (nat-IsF64 (high - low) (omega arith)) (nat-IsF64 high small) (apart one low high h) part in
    let (lower, upper) = rounded_between one (blend low high t) low high one_positive below above in
    subst (λ n. (low ≤ n) × (n ≤ high)) (sym (interpolate_eq low high t h small))
      (capped (round_nat (blend low high t)) lower upper)
  where
    capped : (v : ℕ) → low ≤ v → v ≤ high → (low ≤ min v u64_max) × (min v u64_max ≤ high)
    capped v a b = (omega arith, omega arith)

half_up_mono : (o v w : ℕ) → 1 ≤ o → v ≤ w → (2 * v + o) / (2 * o) ≤ (2 * w + o) / (2 * o)
half_up_mono o v w p h = div_mono (2 * v + o) (2 * w + o) (2 * o) (omega arith) (omega arith)

interpolate_mono : (low high s t : ℕ) → s ≤ t → interpolate low high s ≤ interpolate low high t
interpolate_mono low high s t h =
    let w = sub (of_nat high) (of_nat low) in
    let l = of_nat low in
    let parts : round_to_f64 (s * w) one ≤ round_to_f64 (t * w) one =
      round_to_f64_mono (s * w) (t * w) one one_positive (mul-le-mul_right w h) in
    let sums : add l (mul s w) ≤ add l (mul t w) =
      round_to_f64_mono (l + mul s w) (l + mul t w) 1 (omega arith)
        (add-le-add (le_refl l) parts) in
    capped (round_nat (add l (mul s w))) (round_nat (add l (mul t w)))
      (half_up_mono one (add l (mul s w)) (add l (mul t w)) one_positive sums)
  where
    capped : (v u : ℕ) → v ≤ u → min v u64_max ≤ min u u64_max
    capped v u a = omega arith

pub price_at-small :
    (xs : List ℕ) → All (λ p. p ≤ 9007199254740992) xs → (i : ℕ) → price_at xs i ≤ 9007199254740992
price_at-small [] a i = omega arith
price_at-small (x ∷ xs) a zero = a.0
price_at-small (x ∷ xs) a (suc i) = price_at-small xs a.1 i

floors_steps :
    (a b n : ℕ) → a ≤ b → (min (max a 1) n ≡ min (max b 1) n) ⊎ (min (max a 1) n < min (max b 1) n)
floors_steps a b n h = omega arith

-- The value between the prices at `lower` and after it.
abbrev segment : List ℕ → ℕ → ℕ → Copper
segment xs lower t =
    interpolate (price_at xs (lower - 1)) (price_at xs (min (lower + 1) (length xs) - 1)) t

module _ (xs : List ℕ) (s : IsAscending xs) (small : All (λ p. p ≤ 9007199254740992) xs) where
  segment_bounds :
      (lower t : ℕ)
      → 1 ≤ lower
      → lower ≤ length xs
      → t ≤ one
      → (price_at xs (lower - 1) ≤ segment xs lower t)
        × (segment xs lower t ≤ price_at xs (min (lower + 1) (length xs) - 1))
  segment_bounds lower t h k l =
      interpolate_bounds (price_at xs (lower - 1)) (price_at xs (min (lower + 1) (length xs) - 1)) t
        (price_at_mono 0 xs (lower - 1) (min (lower + 1) (length xs) - 1) s (omega arith)
          (omega arith))
        (price_at-small xs small (min (lower + 1) (length xs) - 1)) l

  segment_next :
      (lower upper t u : ℕ)
      → 1 ≤ lower
      → lower < upper
      → upper ≤ length xs
      → t ≤ one
      → u ≤ one
      → segment xs lower t ≤ segment xs upper u
  segment_next lower upper t u h k l m n =
      let middle : price_at xs (min (lower + 1) (length xs) - 1) ≤ price_at xs (upper - 1) =
        price_at_mono 0 xs (min (lower + 1) (length xs) - 1) (upper - 1) s (omega arith)
          (omega arith) in
      omega (
        arith,
        middle,
        segment_bounds lower t h (omega arith) m,
        segment_bounds upper u (omega arith) l n,
      )

  -- The segment and the place in it that `quantile` takes at `h`.
  abbrev floor_of : ℕ → ℕ
  floor_of h = min (max (h / one) 1) (length xs)

  abbrev spot : F64 → ℕ → F64
  spot h n = min (sub h (of_nat n)) one

  spot_mono : (h k n : ℕ) → h ≤ k → spot h n ≤ spot k n
  spot_mono h k n l = capped (sub h (of_nat n)) (sub k (of_nat n)) (
      round_to_f64_mono (h - of_nat n) (k - of_nat n) 1 (omega arith) (minus_mono h k (of_nat n) l))
    where
      minus_mono : (a b c : ℕ) → a ≤ b → a - c ≤ b - c
      minus_mono a b c l = omega arith

      capped : (a b : ℕ) → a ≤ b → min a one ≤ min b one
      capped a b l = omega arith

  spot_le : (h n : ℕ) → spot h n ≤ one
  spot_le h n = capped (sub h (of_nat n))
    where
      capped : (a : ℕ) → min a one ≤ one
      capped a = omega arith

  abbrev value_at : ℕ → Copper
  value_at h = segment xs (floor_of h) (spot h (floor_of h))

  value_mono : (h k : ℕ) → 1 ≤ length xs → h ≤ k → value_at h ≤ value_at k
  value_mono h k l o =
      by_floor (floor_of h) (floor_of k) refl refl
        (floors_steps (h / one) (k / one) (length xs) (div_mono h k one one_positive o))
    where
      by_floor :
          (a b : ℕ)
          → floor_of h ≡ a
          → floor_of k ≡ b
          → (a ≡ b) ⊎ (a < b)
          → segment xs a (spot h a) ≤ segment xs b (spot k b)
      by_floor a b e f (inl same) =
          subst (λ c. segment xs a (spot h a) ≤ segment xs c (spot k c)) same
            (interpolate_mono (price_at xs (a - 1)) (price_at xs (min (a + 1) (length xs) - 1))
              (spot h a) (spot k a) (spot_mono h k a o))
      by_floor a b e f (inr less) =
          segment_next a b (spot h a) (spot k b) (omega (arith, e)) less (omega (arith, f))
            (omega arith) (omega arith)

h_mono : (n p q : ℕ) → p ≤ q → h_of n p ≤ h_of n q
h_mono n p q h =
    let g = add (of_nat n) third in
    let product : mul g p ≤ mul g q =
      round_to_f64_mono (g * p) (g * q) one one_positive (mul-le-mul_left g h) in
    round_to_f64_mono (mul g p + third) (mul g q + third) 1 (omega arith)
      (add-le-add product (le_refl third))

pub fraction_mono : (p q : ℕ) → p ≤ q → fraction p ≤ fraction q
fraction_mono p q h =
    let hundred : 1 ≤ of_nat 100 =
      subst (λ n. 1 ≤ n) (sym (of_nat-exact 100 (omega arith))) (omega arith) in
    let numbers : of_nat p ≤ of_nat q =
      round_to_f64_mono (p * one) (q * one) 1 (omega arith) (mul-le-mul_right one h) in
    round_to_f64_mono (of_nat p * one) (of_nat q * one) (of_nat 100) hundred
      (mul-le-mul_right one numbers)

-- The quantiles at two fractions are there, in their order, and between the least and the greatest
-- price.
pub record Ordered (b : Buckets) (p q : F64) : Type 0 where
  pub low : Copper
  pub high : Copper
  pub low_eq : quantile b p ≡ some low
  pub high_eq : quantile b q ≡ some high
  pub ordered : low ≤ high
  pub least : price_at b.prices 0 ≤ low
  pub greatest : high ≤ price_at b.prices (len b - 1)

single-Ordered : (b : Buckets) (p q : F64) → len b ≡ 1 → Ordered b p q
unfolding quantile
single-Ordered b p q e = record {
  low = price_at b.prices 0;
  high = price_at b.prices 0;
  low_eq = rw e refl;
  high_eq = rw e refl;
  ordered = omega arith;
  least = omega arith;
  greatest = rw e (omega arith);
}

several-Ordered :
    (b : Buckets) (p q : F64)
    → IsAscending b.prices
    → All (λ x. x ≤ 9007199254740992) b.prices
    → 2 ≤ len b
    → p ≤ q
    → Ordered b p q
unfolding quantile
several-Ordered b p q s z l o =
    let some_prices : (len b == 0) ≡ false = ground arith in
    let no_single : (len b == 1) ≡ false = ground arith in
    let f : ℕ → ℕ = floor_of b.prices s z in
    let first = h_of (len b) (min p one) in
    let last = h_of (len b) (min q one) in
    let below =
      segment_bounds b.prices s z (f first) (spot b.prices s z first (f first)) (omega arith)
        (omega arith) (spot_le b.prices s z first (f first)) in
    let above =
      segment_bounds b.prices s z (f last) (spot b.prices s z last (f last)) (omega arith)
        (omega arith) (spot_le b.prices s z last (f last)) in
    record {
      low = value_at b.prices s z first;
      high = value_at b.prices s z last;
      low_eq = rw (some_prices, no_single) refl;
      high_eq = rw (some_prices, no_single) refl;
      ordered =
          value_mono b.prices s z first last (omega arith)
            (h_mono (len b) (min p one) (min q one) (omega arith));
      least =
          omega
            (arith, below, price_at_mono 0 b.prices 0 (f first - 1) s (omega arith) (omega arith));
      greatest = omega (
        arith,
        above,
        price_at_mono 0 b.prices (min (f last + 1) (len b) - 1) (len b - 1) s (omega arith)
            (omega arith),
      );
    }

-- On sorted prices, at least one and none above 2 ^ 53, every quantile is there, none lies outside
-- the prices, and a quantile at a higher fraction is no lower.
pub quantile-Ordered :
    (b : Buckets) (p q : F64)
    → IsAscending b.prices
    → All (λ x. x ≤ 9007199254740992) b.prices
    → 1 ≤ len b
    → p ≤ q
    → Ordered b p q
quantile-Ordered b p q s z l o = elim (Bool-cases (len b == 1)) [
  | inl e ↦ single-Ordered b p q (ground arith)
  | inr e ↦ several-Ordered b p q s z (ground arith) o
]
