-- ===== src/Market/Engine/Spread.antt =====
-- crates/app-core/src/market/engine.rs, `Distribution::of`: its numbers are in order.
use gavel.Shared.{
  ℕ, List, [], ◌∷◌, All, ◌+◌, ◌-◌, ◌%◌, ◌≤◌, ◌≡◌, refl, sym, ap, ◌∙◌, some, map, arith, length-map,
}
use gavel.Shared.Sort.{IsAscending, sort-IsAscending, length-sort, sort, insert_sorted}
use gavel.Market.Defs.{Copper}
use gavel.Market.Engine.Defs.{
  Buckets, len, price_at, Distribution, abs_diff, deviations, distribution_of, fraction,
}
use gavel.Market.Engine.Quantile.{Ordered, quantile-Ordered, fraction_mono, price_at-small}

-- What a distribution says of the prices.
pub record IsSpread (b : Buckets) (d : Distribution) : Type 0 where
  pub least : price_at b.prices 0 ≤ d.p05
  pub low : d.p05 ≤ d.p25
  pub under : d.p25 ≤ d.median
  pub over : d.median ≤ d.p75
  pub high : d.p75 ≤ d.p95
  pub greatest : d.p95 ≤ price_at b.prices (len b - 1)
  pub width : d.p25 + d.iqr ≡ d.p75
  pub deviation : d.mad ≤ price_at (deviations b d.median).prices (len b - 1)

some_inj {ℓ} : {A : Type ℓ} {a b : A} → some a ≡ some b → a ≡ b
some_inj e = ground (arith, e)

len-deviations : (b : Buckets) (median : Copper) → len (deviations b median) ≡ len b
len-deviations b median =
    length-sort (map (λ p. abs_diff p median) b.prices)
    ∙ length-map (λ p. abs_diff p median) b.prices

insert_sorted-All :
    (m a : ℕ) (xs : List ℕ) → a ≤ m → All (λ x. x ≤ m) xs → All (λ x. x ≤ m) (insert_sorted a xs)
unfolding insert_sorted
insert_sorted-All m a [] h all = (h, tt)
insert_sorted-All m a (x ∷ xs) h all = ground (arith, insert_sorted-All m a xs h)

sort-All : (m : ℕ) (xs : List ℕ) → All (λ x. x ≤ m) xs → All (λ x. x ≤ m) (sort xs)
unfolding sort
sort-All m [] all = tt
sort-All m (x ∷ xs) all = insert_sorted-All m x (sort xs) all.0 (sort-All m xs all.1)

map-abs_diff-All :
    (m median : ℕ) (xs : List ℕ)
    → median ≤ m
    → All (λ x. x ≤ m) xs
    → All (λ x. x ≤ m) (map (λ p. abs_diff p median) xs)
map-abs_diff-All m median [] h all = tt
map-abs_diff-All m median (x ∷ xs) h all = (near x all.0, map-abs_diff-All m median xs h all.1)
  where
    near : (x : ℕ) → x ≤ m → abs_diff x median ≤ m
    near x k = omega arith

-- Sorted prices, at least one and none above 2 ^ 53, have a distribution: its quantiles ascend between the least and the
-- greatest price, the IQR is the width between the quartiles, and the MAD is no more than the
-- greatest deviation from the median.
pub distribution_of-IsSpread :
    (b : Buckets)
    → IsAscending b.prices
    → All (λ p. p ≤ 9007199254740992) b.prices
    → 1 ≤ len b
    → (d : Distribution) × (distribution_of b ≡ some d) × IsSpread b d
unfolding distribution_of
distribution_of-IsSpread b s z l =
    let a : Ordered b (fraction 5) (fraction 25) =
      quantile-Ordered b (fraction 5) (fraction 25) s z l (fraction_mono 5 25 (omega arith)) in
    let c : Ordered b (fraction 25) (fraction 50) =
      quantile-Ordered b (fraction 25) (fraction 50) s z l (fraction_mono 25 50 (omega arith)) in
    let e : Ordered b (fraction 50) (fraction 75) =
      quantile-Ordered b (fraction 50) (fraction 75) s z l (fraction_mono 50 75 (omega arith)) in
    let f : Ordered b (fraction 75) (fraction 95) =
      quantile-Ordered b (fraction 75) (fraction 95) s z l (fraction_mono 75 95 (omega arith)) in
    let p25_same : a.high ≡ c.low = some_inj (sym a.high_eq ∙ c.low_eq) in
    let median_same : c.high ≡ e.low = some_inj (sym c.high_eq ∙ e.low_eq) in
    let p75_same : e.high ≡ f.low = some_inj (sym e.high_eq ∙ f.low_eq) in
    let dev : Buckets = deviations b e.low in
    let middle : e.low ≤ 9007199254740992 =
      omega (arith, e.ordered, e.greatest, price_at-small b.prices z (len b - 1)) in
    let near =
      sort-All 9007199254740992 (map (λ p. abs_diff p e.low) b.prices)
        (map-abs_diff-All 9007199254740992 e.low b.prices middle z) in
    let m : Ordered dev (fraction 50) (fraction 50) =
      quantile-Ordered dev (fraction 50) (fraction 50)
        (sort-IsAscending (map (λ p. abs_diff p e.low) b.prices)) near
        (omega (arith, len-deviations b e.low)) (fraction_mono 50 50 (omega arith)) in
    (
      record {
        p05 = a.low;
        p25 = c.low;
        median = e.low;
        p75 = e.high;
        p95 = f.high;
        iqr = e.high - c.low;
        mad = m.low;
        buckets = len b % 4294967296;
      },
      rw (e.low_eq, c.low_eq, e.high_eq, m.low_eq, a.low_eq, f.high_eq) refl,
      record {
        least = a.least;
        low = omega (arith, a.ordered, p25_same);
        under = omega (arith, c.ordered, median_same);
        over = e.ordered;
        high = omega (arith, f.ordered, p75_same);
        greatest = f.greatest;
        width = omega (arith, c.ordered, e.ordered, median_same);
        deviation =
            omega
              (arith, m.greatest, ap (λ n. price_at dev.prices (n - 1)) (len-deviations b e.low));
      },
    )
