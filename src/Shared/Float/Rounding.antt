-- ===== src/Shared/Float/Rounding.antt =====
-- The rounding to f64 keeps the order of numbers, and the numbers that are f64.
use Prim.Native.Nat.{ℕ, zero, suc, ◌*◌, ◌/◌, ◌%◌, ◌≤◌, ◌<◌}
use mathlib.Core.Path.{◌≡◌, refl, sym, ap, subst, ◌∙◌}
use mathlib.Core.Logic.{◌⊎◌, ◌↔◌, inl, inr}
use native.Mathlib.Omega.{arith}
use native.Mathlib.Nat.{
  le-div_iff_mul-le, mul_assoc, mul_left_comm, le_refl, mul-le-mul, mul-le-mul_right, div-add-mod,
  mul-div_cancel, mul-mod_left,
}
use gavel.Shared.Tests.{ltb, Bool-cases}
use mathlib.Core.Bool.{true, false}
use gavel.Shared.Division.{div_mono}
use gavel.Shared.Float.{one, spacing, nearest, round_to_f64}

-- The spacing about a number below 53 bits, or more.
spacing_small : (f q : ℕ) → q < 9007199254740992 → spacing f q ≡ 1
unfolding spacing
spacing_small zero q h = refl
spacing_small (suc f) q h =
    let e : ltb q 9007199254740992 ≡ true = ground arith in rw (e, spacing) refl

spacing_large : (f q : ℕ) → 9007199254740992 ≤ q → spacing (suc f) q ≡ 2 * spacing f (q / 2)
unfolding spacing
spacing_large f q h = let e : ltb q 9007199254740992 ≡ false = ground arith in rw (e, spacing) refl

-- The spacing is right for a number: 53 bits count it, and where it is not 1, no fewer do.
pub record IsSpacing (q s : ℕ) : Type 0 where
  pub positive : 1 ≤ s
  pub above : q < 9007199254740992 * s
  pub below : (s ≡ 1) ⊎ (4503599627370496 * s ≤ q)

spacing-IsSpacing : (f q : ℕ) → q ≤ f → IsSpacing q (spacing f q)
spacing-IsSpacing zero q h =
    rw (spacing_small zero q (omega arith))
      (record { positive = omega arith; above = omega arith; below = inl refl })
spacing-IsSpacing (suc f) q h = elim (Bool-cases (ltb q 9007199254740992)) [
  | inl small ↦
      let lt : q < 9007199254740992 = ground arith in
      rw (spacing_small (suc f) q lt)
        (record { positive = omega arith; above = omega arith; below = inl refl })
  | inr large ↦
      let le : 9007199254740992 ≤ q = ground arith in
      let i : IsSpacing (q / 2) (spacing f (q / 2)) = spacing-IsSpacing f (q / 2) (omega arith) in
      rw (spacing_large f q le) (record {
        positive = omega (arith, i.positive);
        above = omega (arith, i.above);
        below = inr (omega (arith, i.below));
      })
]

first_step :
    (f g q r : ℕ)
    → r ≤ g
    → q < 9007199254740992
    → 9007199254740992 ≤ r
    → 2 * spacing f q ≤ spacing g r
first_step f zero q r k a b = absurd (omega arith)
first_step f (suc g) q r k a b =
    let i : IsSpacing (r / 2) (spacing g (r / 2)) = spacing-IsSpacing g (r / 2) (omega arith) in
    rw (spacing_small f q a, spacing_large g r b) (omega (arith, i.positive))

-- The spacing of a number is that of a number no greater, or at least twice as much.
abbrev Steps : ℕ → ℕ → ℕ → ℕ → Type 0
Steps f g q r = (spacing f q ≡ spacing g r) ⊎ (2 * spacing f q ≤ spacing g r)

small-Steps : (f g q r : ℕ) → r ≤ g → q < 9007199254740992 → Steps f g q r
small-Steps f g q r k a = elim (Bool-cases (ltb r 9007199254740992)) [
  | inl small ↦ inl (spacing_small f q a ∙ sym (spacing_small g r (ground arith)))
  | inr large ↦ inr (first_step f g q r k a (ground arith))
]

spacing-Steps : (f g q r : ℕ) → q ≤ f → r ≤ g → q ≤ r → Steps f g q r
spacing-Steps zero g q r h k l = small-Steps zero g q r k (omega arith)
spacing-Steps (suc f) zero q r h k l = small-Steps (suc f) zero q r k (omega arith)
spacing-Steps (suc f) (suc g) q r h k l = elim (Bool-cases (ltb q 9007199254740992)) [
  | inl small ↦ small-Steps (suc f) (suc g) q r k (ground arith)
  | inr large ↦
      let le : 9007199254740992 ≤ q = ground arith in
      rw (spacing_large f q le, spacing_large g r (omega arith))
        (elim (spacing-Steps f g (q / 2) (r / 2) (omega arith) (omega arith) (omega arith)) [
          | inl same ↦ inl (ap (λ s. 2 * s) same)
          | inr twice ↦ inr (omega arith)
        ])
]

positive_mul : (a b : ℕ) → 1 ≤ a → 1 ≤ b → 1 ≤ a * b
positive_mul a b h k = mul-le-mul {n₁ = 1} {m₁ = 1} h k

nearest_mono : (a b u : ℕ) → 1 ≤ u → a ≤ b → nearest a u ≤ nearest b u
nearest_mono a b u p h =
    let quotients : a / u ≤ b / u = div_mono a b u p h in
    elim (Bool-cases (ltb (a / u) (b / u))) [
      | inl less ↦ ground arith
      | inr same ↦
          let equal : a / u ≡ b / u = ground arith in
          let product : u * (a / u) ≡ u * (b / u) = ap (λ q. u * q) equal in
          let rest : a % u ≤ b % u = omega (arith, div-add-mod a u, div-add-mod b u, product) in
          rw equal (ground (arith, rest))
    ]

nearest_exact : (k u : ℕ) → 1 ≤ u → nearest (k * u) u ≡ k
nearest_exact k u p =
    let q : k * u / u ≡ k = mul-div_cancel k p in
    let r : k * u % u ≡ 0 = mul-mod_left k u in rw (q, r) (ground arith)

-- At most 53 bits, and where the spacing is not 1 at least as many.
nearest_above :
    (a b s : ℕ)
    → 1 ≤ b
    → 1 ≤ s
    → a / b < 9007199254740992 * s
    → nearest a (s * b) ≤ 9007199254740992
nearest_above a b s p t h =
    let edge : 9007199254740992 * s ≤ a / b ↔ 9007199254740992 * s * b ≤ a = le-div_iff_mul-le p in
    let under : a ≤ 9007199254740992 * (s * b) =
      grind (arith, edge, mul_assoc 9007199254740992 s b) in
    let units : 1 ≤ s * b = positive_mul s b t p in
    subst (λ n. nearest a (s * b) ≤ n) (nearest_exact 9007199254740992 (s * b) units)
      (nearest_mono a (9007199254740992 * (s * b)) (s * b) units under)

nearest_below :
    (c b s : ℕ)
    → 1 ≤ b
    → 1 ≤ s
    → 4503599627370496 * s ≤ c / b
    → 4503599627370496 ≤ nearest c (s * b)
nearest_below c b s p t h =
    let edge : 4503599627370496 * s ≤ c / b ↔ 4503599627370496 * s * b ≤ c = le-div_iff_mul-le p in
    let over : 4503599627370496 * (s * b) ≤ c =
      subst (λ n. n ≤ c) (mul_assoc 4503599627370496 s b) (edge.0 h) in
    let units : 1 ≤ s * b = positive_mul s b t p in
    subst (λ n. n ≤ nearest c (s * b)) (nearest_exact 4503599627370496 (s * b) units)
      (nearest_mono (4503599627370496 * (s * b)) c (s * b) units over)

scaled : (m n s t : ℕ) → m ≤ 9007199254740992 → 4503599627370496 ≤ n → 2 * s ≤ t → m * s ≤ n * t
scaled m n s t h k l =
    let left : m * s ≤ 9007199254740992 * s = mul-le-mul_right s h in
    let right : 4503599627370496 * t ≤ n * t = mul-le-mul_right t k in omega (arith, left, right)

-- A greater number is rounded to no less.
pub round_to_f64_mono : (a c b : ℕ) → 1 ≤ b → a ≤ c → round_to_f64 a b ≤ round_to_f64 c b
unfolding round_to_f64
round_to_f64_mono a c b p h =
    let q = a / b in
    let r = c / b in
    let less : q ≤ r = div_mono a c b p h in
    let i : IsSpacing q (spacing q q) = spacing-IsSpacing q q (omega arith) in
    let j : IsSpacing r (spacing r r) = spacing-IsSpacing r r (omega arith) in
    elim (spacing-Steps q r q r (omega arith) (omega arith) less) [
      | inl same ↦
          let units : 1 ≤ spacing r r * b = positive_mul (spacing r r) b j.positive p in
          rw same (mul-le-mul_right (spacing r r) (nearest_mono a c (spacing r r * b) units h))
      | inr twice ↦
          let wide : 4503599627370496 * spacing r r ≤ r = omega (arith, i.positive, j.below) in
          scaled (nearest a (spacing q q * b)) (nearest c (spacing r r * b)) (spacing q q)
            (spacing r r) (nearest_above a b (spacing q q) p i.positive i.above)
            (nearest_below c b (spacing r r) p j.positive wide) twice
    ]

-- The number is an f64.
abbrev pub IsF64 : ℕ → Type 0
IsF64 x = (k : ℕ) × (x ≡ k * spacing x x)

-- The quotient of a multiple of an f64 is that f64.
pub round_to_f64_exact : (x b : ℕ) → 1 ≤ b → IsF64 x → round_to_f64 (x * b) b ≡ x
unfolding round_to_f64
round_to_f64_exact x b p (k, e) =
    let s = spacing x x in
    let i : IsSpacing x s = spacing-IsSpacing x x (omega arith) in
    let quotient : x * b / b ≡ x = mul-div_cancel x p in
    let grid : x * b ≡ k * (s * b) = ap (λ n. n * b) e ∙ mul_assoc k s b in
    rw (quotient, grid, nearest_exact k (s * b) (positive_mul s b i.positive p)) (sym e)

-- Doubling as often as is said.
unfoldable doubled : ℕ → ℕ → ℕ
doubled zero m = m
doubled (suc j) m = 2 * doubled j m

small_multiple : (f x : ℕ) → x < 9007199254740992 → (k : ℕ) × (x ≡ k * spacing f x)
small_multiple f x h = (x, rw (spacing_small f x h) (omega arith))

edge_multiple : (f : ℕ) → 9007199254740992 ≡ 4503599627370496 * (2 * spacing f 4503599627370496)
edge_multiple f = rw (spacing_small f 4503599627370496 (omega arith)) (omega arith)

-- A number of at most 53 bits, or 2 ^ 53, is a multiple of its spacing however often it is doubled.
multiple_of_spacing :
    (f j m : ℕ)
    → m ≤ 9007199254740992
    → doubled j m ≤ f
    → (k : ℕ) × (doubled j m ≡ k * spacing f (doubled j m))
unfolding doubled
multiple_of_spacing zero j m h l = small_multiple zero (doubled j m) (omega arith)
multiple_of_spacing (suc f) zero m h l = elim (Bool-cases (ltb m 9007199254740992)) [
  | inl small ↦ small_multiple (suc f) m (ground arith)
  | inr edge ↦
      let same : m ≡ 9007199254740992 = ground arith in
      let half : m / 2 ≡ 4503599627370496 = omega arith in
      (4503599627370496, rw (spacing_large f m (omega arith), half) (same ∙ edge_multiple f))
]
multiple_of_spacing (suc f) (suc j) m h l =
    elim (Bool-cases (ltb (2 * doubled j m) 9007199254740992)) [
      | inl small ↦ small_multiple (suc f) (2 * doubled j m) (ground arith)
      | inr large ↦
          let (k, e) = multiple_of_spacing f j m h (omega (arith, large_le large)) in
          let half : 2 * doubled j m / 2 ≡ doubled j m = omega arith in
          (
            k,
            rw (spacing_large f (2 * doubled j m) (ground arith), half)
                (omega (arith, e, times_two k (spacing f (doubled j m)))),
          )
    ]
  where
    large_le : ltb (2 * doubled j m) 9007199254740992 ≡ false → 9007199254740992 ≤ 2 * doubled j m
    large_le e = ground arith

    times_two : (k s : ℕ) → k * (2 * s) ≡ 2 * (k * s)
    times_two k s = grind (arith, mul_assoc k 2 s, mul_assoc 2 k s)

doubled_eq : (j m : ℕ) → doubled j m ≡ m * doubled j 1
unfolding doubled
doubled_eq zero m = omega arith
doubled_eq (suc j) m = omega (arith, doubled_eq j m, mul_left_comm m 2 (doubled j 1))

doubled-one : doubled 1074 1 ≡ one
unfolding doubled
doubled-one = refl

-- A whole number up to 2 ^ 53 is an f64.
pub nat-IsF64 : (n : ℕ) → n ≤ 9007199254740992 → IsF64 (n * one)
nat-IsF64 n h =
    as_units (doubled 1074 n) (doubled_eq 1074 n ∙ ap (λ u. n * u) doubled-one)
      (multiple_of_spacing (doubled 1074 n) 1074 n h (le_refl (doubled 1074 n)))
  where
    as_units : (x : ℕ) → x ≡ n * one → IsF64 x → IsF64 (n * one)
    as_units x e i = subst IsF64 e i
