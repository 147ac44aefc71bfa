-- ===== src/Workload/Prime.antt =====
-- crates/cluster-core/src/workload.rs, `is_prime`: trial division by 2, 3 and 6k ± 1 decides whether a
-- number is prime, as far as `d * d` stays in a u64.
use native.Mathlib.Nat.{div-add-mod, mul-le-mul}
use native.Mathlib.Decide.{dec_lt}
use gavel.Shared.{
  ℕ, zero, suc, ◌+◌, ◌*◌, ◌/◌, ◌%◌, ◌≤◌, ◌<◌, ◌≡◌, ◌≢◌, ◌↔◌, refl, inl, inr, ◌||◌, Bool, true,
  false, arith, leb, ltb, tests, ◌==◌, if◌then◌else◌, Bool-cases,
}
use gavel.Workload.Defs.{is_multiple_of, prime_loop, is_prime}

-- No number from 2 to below `d` divides `n`.
abbrev NoDivisor : ℕ → ℕ → Type 0
NoDivisor n d = (e : ℕ) → 2 ≤ e → e < d → n % e ≢ 0

pub record IsPrime (n : ℕ) : Type 0 where
  pub two_le : 2 ≤ n
  pub no_divisor : (e : ℕ) → 2 ≤ e → e < n → n % e ≢ 0

sq_lt : (d : ℕ) → d < 4294967296 → d * d < 18446744073709551616
sq_lt d h = grind arith

sq_inv : (d n : ℕ) → d * d ≤ n → n < 4294967290 * 4294967290 → d < 4294967290
sq_inv d n h k = elim (dec_lt d 4294967290) [ yes l ↦ l | no g ↦ absurd (big (omega arith)) ]
  where
    big : 4294967290 ≤ d → ⊥
    big g = omega (arith, mul-le-mul g g)

quotient : (n e : ℕ) → n % e ≡ 0 → n ≡ e * (n / e)
quotient n e h = omega (arith, div-add-mod n e)

multiple : (n e q : ℕ) → 0 < e → n ≡ e * q → n % e ≡ 0
multiple n e q p h = grind arith

-- A divisor of a divisor.
through : (n e k q : ℕ) → n ≡ e * q → e ≡ 2 * k → n % 2 ≡ 0
through n e k q h p = let e' : n ≡ 2 * k * q = rw (← p) h in omega arith

through3 : (n e k q : ℕ) → n ≡ e * q → e ≡ 3 * k → n % 3 ≡ 0
through3 n e k q h p = let e' : n ≡ 3 * k * q = rw (← p) h in omega arith

even_of : (n e : ℕ) → e % 2 ≡ 0 → n % e ≡ 0 → n % 2 ≡ 0
even_of n e p h = through n e (e / 2) (n / e) (quotient n e h) (omega arith)

triple_of : (n e : ℕ) → e % 3 ≡ 0 → n % e ≡ 0 → n % 3 ≡ 0
triple_of n e p h = through3 n e (e / 3) (n / e) (quotient n e h) (omega arith)

-- The loop's state: what is known of `n` when the loop tests the candidate `d`.
record Searched (n d : ℕ) : Type 0 where
  small : n < 4294967290 * 4294967290
  odd : n % 2 ≢ 0
  threeless : n % 3 ≢ 0
  residue : d % 6 ≡ 5
  word : d < 4294967296
  before : NoDivisor n d

-- Beyond the square root a divisor would have a cofactor that was tried.
beyond : (n d : ℕ) → n < d * d → NoDivisor n d → NoDivisor n n
beyond n d h none_below e two lt divides = elim (dec_lt e d) [
  | yes l ↦ none_below e two l divides
  | no g ↦
      let q = n / e in
      let eq : n ≡ e * q = quotient n e divides in
      let q_small : q < d = cofactor_lt n d e q h eq (omega arith) in
      none_below q (cofactor_ge n e q eq lt) q_small (cofactor_divides n e q eq (omega arith))
]
  where
    cofactor_lt : (n d e q : ℕ) → n < d * d → n ≡ e * q → d ≤ e → q < d
    cofactor_lt n d e q h eq g = elim (dec_lt q d) [
      | yes l ↦ l
      | no g' ↦
          absurd (omega (arith, mul-le-mul {n₁ = d} {m₁ = d} {n₂ = e} {m₂ = q} g (omega arith)))
    ]

    cofactor_ge : (n e q : ℕ) → n ≡ e * q → e < n → 2 ≤ q
    cofactor_ge n e zero eq l = omega arith
    cofactor_ge n e (suc zero) eq l = omega arith
    cofactor_ge n e (suc (suc q)) eq l = omega arith

    cofactor_divides : (n e q : ℕ) → n ≡ e * q → 0 < n → n % q ≡ 0
    cofactor_divides n e zero eq p = absurd (omega arith)
    cofactor_divides n e (suc q) eq p = multiple n (suc q) e (omega arith) (omega arith)

-- Of six candidates in a row only the first and the third are neither even nor multiples of 3.
six_more :
    (n d : ℕ)
    → n % 2 ≢ 0
    → n % 3 ≢ 0
    → d % 6 ≡ 5
    → n % d ≢ 0
    → n % (d + 2) ≢ 0
    → NoDivisor n d
    → NoDivisor n (d + 6)
six_more n d odd threeless r no_d no_d2 before e two lt divides =
    ground (arith, before e two, even_of n e, triple_of n e)

squared : (n d : ℕ) → Searched n d → (d * d) % 18446744073709551616 ≡ d * d
squared n d s = omega (arith, sq_lt d s.word)

next_word : (n d : ℕ) → Searched n d → d * d ≤ n → (d + 6) % 18446744073709551616 ≡ d + 6
next_word n d s h = omega (arith, sq_inv d n h s.small)

next_Searched :
    (n d : ℕ) → Searched n d → d * d ≤ n → n % d ≢ 0 → n % (d + 2) ≢ 0 → Searched n (d + 6)
next_Searched n d s h p q = record {
  small = s.small;
  odd = s.odd;
  threeless = s.threeless;
  residue = omega (arith, s.residue);
  word = omega (arith, sq_inv d n h s.small);
  before = six_more n d s.odd s.threeless s.residue p q s.before;
}

in_range : (n d : ℕ) → Searched n d → d * d ≤ n → (5 ≤ d) × (d + 2 < n)
in_range n d s h =
    let five : 5 ≤ d = omega (arith, s.residue) in
    (five, omega (arith, mul-le-mul {n₁ = 5} {m₁ = d} {n₂ = d} {m₂ = d} five (omega arith)))

-- What a round decides.
verdict :
    {P : Type 0} (a b rest : Bool)
    → (a ≡ true → ¬ P)
    → (b ≡ true → ¬ P)
    → (a ≡ false → b ≡ false → (rest ≡ true) ↔ P)
    → ((if a || b then false else rest) ≡ true) ↔ P
verdict true b rest p q r = ((λ e. cc), (λ x. absurd (p refl x)))
verdict false true rest p q r = ((λ e. cc), (λ x. absurd (q refl x)))
verdict false false rest p q r = r refl refl

-- The loop answers `true` exactly if no number divides `n`; with `n` for its fuel it ends by its
-- test, since `d` grows by 6.
prime_loop_lem :
    (fuel n d : ℕ) → Searched n d → n < d + 6 * fuel → (prime_loop fuel n d ≡ true) ↔ NoDivisor n n
unfolding prime_loop
prime_loop_lem zero n d s h = ((λ _ e two lt. s.before e two (omega arith)), (λ _. refl))
prime_loop_lem (suc fuel) n d s h = rw (squared n d s) (elim (Bool-cases (leb (d * d) n)) [
  | inr past ↦ rw past ((λ _. beyond n d (ground arith) s.before), (λ _. refl))
  | inl more ↦
      let le : d * d ≤ n = ground arith in
      let (five, below) = in_range n d s le in
      rw (more, next_word n d s le)
        (verdict (is_multiple_of n d) (is_multiple_of n (d + 2)) (prime_loop fuel n (d + 6))
          (λ hit free. free d (omega arith) (omega arith) (ground arith))
          (λ hit free. free (d + 2) (omega arith) below (ground arith))
          (λ p q.
            prime_loop_lem fuel n (d + 6) (next_Searched n d s le (ground arith) (ground arith))
              (omega arith)))
])

from_start : (n : ℕ) → n < 4294967290 * 4294967290 → n % 2 ≢ 0 → n % 3 ≢ 0 → Searched n 5
from_start n h p q = record {
  small = h;
  odd = p;
  threeless = q;
  residue = refl;
  word = omega arith;
  before = small_divisors n p q;
}
  where
    small_divisors : (n : ℕ) → n % 2 ≢ 0 → n % 3 ≢ 0 → NoDivisor n 5
    small_divisors n p q e two lt divides = ground (arith, even_of n e, triple_of n e)

odd_three : (k : ℕ) → 2 ≤ k → k < 3 → 3 % k ≢ 0
odd_three zero t l d = omega arith
odd_three (suc zero) t l d = omega arith
odd_three (suc (suc zero)) t l d = omega arith
odd_three (suc (suc (suc k))) t l d = omega arith

-- Below 4294967290 squared, `is_prime` answers `true` exactly for the prime numbers. (The loop is
-- given as many rounds as `n` has units, and it never needs them all.)
pub is_prime_lem : (n : ℕ) → n < 4294967290 * 4294967290 → (is_prime n ≡ true) ↔ IsPrime n
unfolding is_prime
is_prime_lem n h = elim (Bool-cases (ltb n 2)) [
  | inl low ↦ rw low ((λ e. cc), (λ p. absurd (omega (tests, p.two_le))))
  | inr high ↦ elim (Bool-cases (is_multiple_of n 2)) [
    | inl even ↦ rw (high, even) (by_two n (ground arith))
    | inr odd ↦ elim (Bool-cases (is_multiple_of n 3)) [
      | inl triple ↦ rw (high, odd, triple) (by_three n (ground arith) (ground arith))
      | inr threeless ↦
          let start : Searched n 5 = from_start n h (ground arith) (ground arith) in
          let (sound, complete) = prime_loop_lem n n 5 start (omega arith) in
          rw (high, odd, threeless)
            (
              (λ e. record { two_le = ground arith; no_divisor = sound e }),
              (λ p. complete p.no_divisor),
            )
    ]
  ]
]
  where
    by_two : (n : ℕ) → n % 2 ≡ 0 → ((n == 2) ≡ true) ↔ IsPrime n
    by_two n e = (
      (λ q. record { two_le = ground arith; no_divisor = λ k two lt. absurd (ground arith) }),
      (λ p. elim (Bool-cases (n == 2)) [
        | inl y ↦ y
        | inr ne ↦ absurd (p.no_divisor 2 (omega arith) (ground (arith, p.two_le)) e)
      ]),
    )

    by_three : (n : ℕ) → (n % 2 ≢ 0) → n % 3 ≡ 0 → ((n == 3) ≡ true) ↔ IsPrime n
    by_three n odd e = (
      (λ q. record {
        two_le = ground arith;
        no_divisor = λ k two lt d. odd_three k two (ground arith) (ground arith);
      }),
      (λ p. elim (Bool-cases (n == 3)) [
        | inl y ↦ y
        | inr ne ↦ absurd (p.no_divisor 3 (omega arith) (ground (arith, p.two_le)) e)
      ]),
    )
