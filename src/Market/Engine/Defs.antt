-- ===== src/Market/Engine/Defs.antt =====
-- crates/app-core/src/market/engine.rs without `Spark`. The interpolation of a quantile is in f64,
-- rounded after each operation as the source does.
use gavel.Shared.{
  ℕ, zero, suc, ◌+◌, ◌-◌, ◌*◌, ◌/◌, ◌%◌, min, max, Bool, ◌==◌, ltb, leb, Option, none, some, List,
  [], ◌∷◌, map, if◌then◌else◌, length, saturating_sub, u64_max,
}
use gavel.Shared.Float.{F64, one, of_nat, add, sub, mul, div, floor_nat, round_nat}
use gavel.Shared.BTreeMap.{BTreeMap, get, insert, values}
use gavel.Shared.Sort.{sort}
use gavel.Time.{Millis}
use gavel.Market.Defs.{Copper}

abbrev pub bucket_ms : ℕ
bucket_ms = 3600000

pub record Buckets : Type 0 where
  pub prices : List ℕ

-- What stands in a bucket after an observation: of equal instants the later one.
abbrev pub replace : Option (Millis × Copper) → Millis → Copper → Millis × Copper
replace none at price = (at, price)
replace (some (t, p)) at price = if leb t at then (at, price) else (t, p)

-- The loop over the observations.
unfoldable pub latest_by_hour :
    List (Millis × Copper) → BTreeMap (Millis × Copper) → BTreeMap (Millis × Copper)
latest_by_hour [] m = m
latest_by_hour ((at, price) ∷ rest) m =
    latest_by_hour rest (insert (at / bucket_ms) (replace (get (at / bucket_ms) m) at price) m)

abbrev pub price_in : Millis × Copper → ℕ
price_in (at, price) = price

-- `Buckets::from_observations`.
unfoldable pub from_observations : List (Millis × Copper) → Buckets
from_observations observations = record {
  prices = sort (map price_in (values (latest_by_hour observations [])));
}

abbrev pub len : Buckets → ℕ
len b = length b.prices

abbrev pub price_at : List ℕ → ℕ → ℕ
price_at [] i = 0
price_at (x ∷ xs) zero = x
price_at (x ∷ xs) (suc i) = price_at xs i

-- `1.0 / 3.0`.
abbrev pub third : F64
third = div one (3 * one)

-- `percent as f64 / 100.0`; the literals of the source, such as 0.05, are the same numbers.
abbrev pub fraction : ℕ → F64
fraction percent = div (of_nat percent) (of_nat 100)

-- `h`, for `p` between 0 and 1.
abbrev pub h_of : ℕ → F64 → F64
h_of n p = add (mul (add (of_nat n) third) p) third

-- `h.floor().clamp(1.0, n) as usize`.
abbrev pub lower_of : ℕ → F64 → ℕ
lower_of n h = min (max (floor_nat h) 1) n

-- `value`, rounded: the prices are sorted, so that `high - low` is not negative.
abbrev pub interpolate : ℕ → ℕ → F64 → ℕ
interpolate low high t =
    min (round_nat (add (of_nat low) (mul t (sub (of_nat high) (of_nat low))))) u64_max

-- `Buckets::quantile`.
unfoldable pub quantile : Buckets → F64 → Option Copper
quantile b p =
    let n = len b in
    let h = h_of n (min p one) in
    let lower = lower_of n h in
    let upper = min (lower + 1) n in
    let low = price_at b.prices (lower - 1) in
    let high = price_at b.prices (upper - 1) in
    if n == 0
    then none
    else if n == 1
    then some (price_at b.prices 0)
    else some (interpolate low high (min (sub h (of_nat lower)) one))

-- `partition_point`: how many prices at the front pass.
unfoldable pub partition : (ℕ → Bool) → List ℕ → ℕ
partition p [] = 0
partition p (x ∷ xs) = let later = suc (partition p xs) in if p x then later else 0

-- `Buckets::rank_of`.
unfoldable pub rank_of : Buckets → Copper → Option ℕ
rank_of b price =
    let below = partition (λ p. ltb p price) b.prices in
    let at_or_below = partition (λ p. leb p price) b.prices in
    if len b == 0 then none else some (min (((below + at_or_below) * 100) / (2 * len b)) 100)

pub record Distribution : Type 0 where
  pub p05 : Copper
  pub p25 : Copper
  pub median : Copper
  pub p75 : Copper
  pub p95 : Copper
  pub iqr : Copper
  pub mad : Copper
  pub buckets : ℕ

abbrev pub abs_diff : ℕ → ℕ → ℕ
abs_diff a b = (a - b) + (b - a)

abbrev pub deviations : Buckets → Copper → Buckets
deviations b median = record { prices = sort (map (λ p. abs_diff p median) b.prices) }

-- `?` on an Option.
abbrev pub and_then {ℓ κ} : {A : Type ℓ} {B : Type κ} → Option A → (A → Option B) → Option B
and_then none f = none
and_then (some a) f = f a

-- `Distribution::of`.
unfoldable pub distribution_of : Buckets → Option Distribution
distribution_of b = and_then (quantile b (fraction 50)) λ median.
    and_then (quantile b (fraction 25)) λ p25. and_then (quantile b (fraction 75)) λ p75.
      and_then (quantile (deviations b median) (fraction 50)) λ mad.
        and_then (quantile b (fraction 5)) λ p05. and_then (quantile b (fraction 95)) λ p95.
          some (record {
            p05 = p05;
            p25 = p25;
            median = median;
            p75 = p75;
            p95 = p95;
            iqr = saturating_sub p75 p25;
            mad = mad;
            buckets = len b % 4294967296;
          })
