-- ===== src/Market/Engine/Place.antt =====
-- crates/app-core/src/market/engine.rs: valuations, anomalies, gates and positions.
use gavel.Shared.{
  ℕ, ◌+◌, ◌-◌, ◌*◌, ◌/◌, ◌%◌, Bool, ◌==◌, ◌||◌, ltb, leb, Option, none, some, if◌then◌else◌, sum,
  Result, ok, err,
}
use gavel.Shared.Ints.{ℤ, pos, neg, as_i32}
use gavel.Market.Defs.{Copper}
use gavel.Market.Engine.Defs.{Buckets, len, price_at, rank_of, Distribution, distribution_of}

pub data Valuation : Type 0 where
  very_cheap cheap typical expensive very_expensive : Valuation

-- `Valuation::of_rank`.
unfoldable pub of_rank : ℕ → Valuation
of_rank rank =
    if leb rank 5
    then very_cheap
    else if leb rank 25
    then cheap
    else if leb rank 75
    then typical
    else if leb rank 95
    then expensive
    else very_expensive

pub data Anomaly : Type 0 where
  ordinary mild extreme : Anomaly

-- `beyond`; where the source goes below zero no price is below.
abbrev pub beyond : ℕ → Copper → Distribution → Bool
beyond factor price d =
    ltb (price + factor * d.iqr / 2) d.p25 || ltb (d.p75 + factor * d.iqr / 2) price

-- `Anomaly::of`.
unfoldable pub anomaly_of : Copper → Distribution → Anomaly
anomaly_of price d =
    if d.iqr == 0
    then ordinary
    else if beyond 6 price d
    then extreme
    else if beyond 3 price d
    then mild
    else ordinary

-- `Swing::of`, on prices that are sorted.
unfoldable pub swing_of : Buckets → ℕ
swing_of b =
    let high = price_at b.prices (len b - 1) in
    let low = price_at b.prices 0 in
    let mean = sum b.prices / len b in
    if len b == 0 then 0 else if mean == 0 then 0 else ((high - low) * 100 / mean) % 4294967296

pub data Insufficient : Type 0 where
  not_enough_history : (have need : ℕ) → Insufficient
  too_many_gaps : (coverage need : ℕ) → Insufficient

pub record Gates : Type 0 where
  pub median : ℕ
  pub tails : ℕ
  pub coverage : ℕ

abbrev pub default_gates : Gates
default_gates = record { median = 12; tails = 24; coverage = 25 }

abbrev pub admit_coverage : Gates → Option ℕ → Result Insufficient (Unit {0})
admit_coverage g none = ok tt
admit_coverage g (some c) = if ltb c g.coverage then err (too_many_gaps c g.coverage) else ok tt

-- `Gates::admit`.
unfoldable pub admit : Gates → ℕ → Option ℕ → Result Insufficient (Unit {0})
admit g buckets coverage =
    if ltb buckets g.tails
    then err (not_enough_history buckets g.tails)
    else admit_coverage g coverage

-- `Gates::admits_median`.
abbrev pub admits_median : Gates → ℕ → Bool
admits_median g buckets = leb g.median buckets

pub record Position : Type 0 where
  pub rank : Option ℕ
  pub valuation : Option Valuation
  pub insufficient : Option Insufficient
  pub from_median_percent : Option ℤ
  pub anomaly : Anomaly

-- The signed percentage, cut towards zero and then to 32 bits.
abbrev pub percent_from : Copper → Copper → ℤ
percent_from price median =
    if median == 0
    then pos 0
    else if leb median price
    then as_i32 ((price - median) * 100 / median)
    else neg ((median - price) * 100 / median)

abbrev pub valuation_by : Result Insufficient (Unit {0}) → Option ℕ → Option Valuation
valuation_by (ok u) (some rank) = some (of_rank rank)
valuation_by (ok u) none = none
valuation_by (err reason) rank = none

abbrev pub insufficient_by :
    Gates → ℕ → Result Insufficient (Unit {0}) → Option ℕ → Option Insufficient
insufficient_by g held (ok u) none = some (not_enough_history held g.median)
insufficient_by g held (ok u) (some rank) = none
insufficient_by g held (err reason) rank = some reason

abbrev pub position_with : Option Distribution → Copper → Buckets → Option ℕ → Gates → Position
position_with none price b coverage g = record {
  rank = none;
  valuation = none;
  insufficient = some (not_enough_history 0 g.tails);
  from_median_percent = none;
  anomaly = ordinary;
}
position_with (some d) price b coverage g =
    let held = len b % 4294967296 in
    let rank : Option ℕ = if admits_median g held then rank_of b price else none in
    let admitted = admit g held coverage in
    record {
      rank = rank;
      valuation = valuation_by admitted rank;
      insufficient = insufficient_by g held admitted rank;
      from_median_percent =
          if admits_median g held then some (percent_from price d.median) else none;
      anomaly = anomaly_of price d;
    }

-- `Position::of`.
unfoldable pub position_of : Copper → Buckets → Option ℕ → Gates → Position
position_of price b coverage g = position_with (distribution_of b) price b coverage g
