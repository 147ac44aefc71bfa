-- ===== src/Market/Engine/Rank.antt =====
-- crates/app-core/src/market/engine.rs, `Buckets::rank_of`.
use gavel.Shared.{
  ℕ, suc, ◌+◌, ◌*◌, ◌/◌, ◌≤◌, ◌≡◌, refl, ap, ◌∙◌, min, Bool, true, false, ◌==◌, ltb, leb, some,
  List, [], ◌∷◌, arith, length, All,
}
use native.Mathlib.Nat.{mul-div_cancel}
use gavel.Shared.Division.{div_mono}
use gavel.Market.Defs.{Copper}
use gavel.Market.Engine.Defs.{Buckets, len, partition, rank_of}
use gavel.Market.Engine.Place.{
  Valuation, very_cheap, cheap, typical, expensive, very_expensive, of_rank,
}

partition-le : (p : ℕ → Bool) (xs : List ℕ) → partition p xs ≤ length xs
unfolding partition
partition-le p [] = omega arith
partition-le p (x ∷ xs) = ground (arith, partition-le p xs)

partition_mono :
    (p q : ℕ → Bool) (xs : List ℕ)
    → ((x : ℕ) → p x ≡ true → q x ≡ true)
    → partition p xs ≤ partition q xs
unfolding partition
partition_mono p q [] h = omega arith
partition_mono p q (x ∷ xs) h = ground (arith, partition_mono p q xs h, h x)

-- The order of the valuations.
abbrev pub band : Valuation → ℕ
band very_cheap = 0
band cheap = 1
band typical = 2
band expensive = 3
band very_expensive = 4

band_mono : (r s : ℕ) → r ≤ s → band (of_rank r) ≤ band (of_rank s)
unfolding of_rank
band_mono r s h = ground arith

abbrev midrank : ℕ → ℕ → ℕ
midrank sum n = min (sum * 100 / (2 * n)) 100

ranks_le : (a b n : ℕ) → 1 ≤ n → a ≤ b → midrank a n ≤ midrank b n
ranks_le a b n l h = omega (arith, div_mono (a * 100) (b * 100) (2 * n) (omega arith) (omega arith))

-- What the ranks of two prices say.
pub record Ranked (b : Buckets) (price dearer : Copper) : Type 0 where
  pub rank : ℕ
  pub dearer_rank : ℕ
  pub rank_eq : rank_of b price ≡ some rank
  pub dearer_eq : rank_of b dearer ≡ some dearer_rank
  pub ordered : rank ≤ dearer_rank
  pub bands : band (of_rank rank) ≤ band (of_rank dearer_rank)
  pub within : dearer_rank ≤ 100

-- In any history that has a bucket, every price has a rank of at most 100, and of two prices the
-- dearer has no lower rank and no cheaper a valuation.
pub rank_of-Ranked :
    (b : Buckets) (price dearer : Copper) → 1 ≤ len b → price ≤ dearer → Ranked b price dearer
unfolding rank_of
rank_of-Ranked b price dearer l h =
    let some_prices : (len b == 0) ≡ false = ground arith in
    let below =
      partition_mono (λ p. ltb p price) (λ p. ltb p dearer) b.prices (λ x e. ground arith) in
    let upto =
      partition_mono (λ p. leb p price) (λ p. leb p dearer) b.prices (λ x e. ground arith) in
    let below_price = partition (λ p. ltb p price) b.prices in
    let upto_price = partition (λ p. leb p price) b.prices in
    let below_dearer = partition (λ p. ltb p dearer) b.prices in
    let upto_dearer = partition (λ p. leb p dearer) b.prices in
    let r : ℕ = midrank (below_price + upto_price) (len b) in
    let s : ℕ = midrank (below_dearer + upto_dearer) (len b) in
    let o : r ≤ s =
      ranks_le (below_price + upto_price) (below_dearer + upto_dearer) (len b) l
        (omega (arith, below, upto)) in
    record {
      rank = r;
      dearer_rank = s;
      rank_eq = rw some_prices refl;
      dearer_eq = rw some_prices refl;
      ordered = o;
      bands = band_mono r s o;
      within = omega arith;
    }

partition-none : (p : ℕ → Bool) (xs : List ℕ) → All (λ x. p x ≡ false) xs → partition p xs ≡ 0
unfolding partition
partition-none p [] h = refl
partition-none p (x ∷ xs) h = rw h.0 refl

partition-All : (p : ℕ → Bool) (xs : List ℕ) → All (λ x. p x ≡ true) xs → partition p xs ≡ length xs
unfolding partition
partition-All p [] h = refl
partition-All p (x ∷ xs) h = rw h.0 (ap suc (partition-All p xs h.1))

-- A price that the market has always had ranks in the middle.
pub rank_of-steady :
    (b : Buckets) (price : Copper)
    → 1 ≤ len b
    → All (λ p. p ≡ price) b.prices
    → rank_of b price ≡ some 50
unfolding rank_of
rank_of-steady b price l h =
    let some_prices : (len b == 0) ≡ false = ground arith in
    let below : partition (λ p. ltb p price) b.prices ≡ 0 =
      partition-none (λ p. ltb p price) b.prices (none_below b.prices h) in
    let upto : partition (λ p. leb p price) b.prices ≡ len b =
      partition-All (λ p. leb p price) b.prices (all_upto b.prices h) in
    let sum : (0 + len b) * 100 ≡ 50 * (2 * len b) = omega arith in
    let middle : (0 + len b) * 100 / (2 * len b) ≡ 50 =
      ap (λ n. n / (2 * len b)) sum ∙ mul-div_cancel 50 (omega arith) in
    rw (some_prices, below, upto, middle) refl
  where
    none_below : (xs : List ℕ) → All (λ p. p ≡ price) xs → All (λ p. ltb p price ≡ false) xs
    none_below [] h = tt
    none_below (x ∷ xs) h = (ground (arith, h.0), none_below xs h.1)

    all_upto : (xs : List ℕ) → All (λ p. p ≡ price) xs → All (λ p. leb p price ≡ true) xs
    all_upto [] h = tt
    all_upto (x ∷ xs) h = (ground (arith, h.0), all_upto xs h.1)
