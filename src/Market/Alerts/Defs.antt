-- ===== src/Market/Alerts/Defs.antt =====
-- crates/app-core/src/market/alerts.rs.
use gavel.Shared.{
  ℕ, ◌/◌, min, max, Bool, false, ◌==◌, ltb, leb, Option, none, some, List, map, filter,
  if◌then◌else◌, u64_mul, saturating_sub,
}
use gavel.Time.{Millis}
use gavel.Market.Defs.{ItemId, Region, Copper, PriceSample}
use gavel.Market.Engine.Defs.{Buckets, from_observations, len, fraction, quantile, and_then}

pub data AlertSeverity : Type 0 where
  low very_low : AlertSeverity

pub record AlertRule : Type 0 where
  pub lookback_ms : ℕ
  pub percentile : ℕ
  pub min_samples : ℕ
  pub min_quantity : ℕ
  pub cooldown_ms : ℕ

-- `AlertRule::default`.
abbrev pub default_rule : AlertRule
default_rule = record {
  lookback_ms = 1209600000;
  percentile = 10;
  min_samples = 48;
  min_quantity = 20;
  cooldown_ms = 21600000;
}

pub record Alert : Type 0 where
  pub item : ItemId
  pub region : Region
  pub severity : AlertSeverity
  pub observed_at : Millis
  pub current : Copper
  pub baseline : Copper
  pub threshold : Copper
  pub discount_percent : ℕ
  pub quantity : ℕ

abbrev pub discount_of : Copper → Copper → ℕ
discount_of baseline current =
    if baseline == 0 then 0 else min (u64_mul (saturating_sub baseline current) 100 / baseline) 100

-- `build`.
unfoldable pub build : PriceSample → Copper → Copper → AlertSeverity → Alert
build current threshold baseline severity = record {
  item = current.item;
  region = current.region;
  severity = severity;
  observed_at = current.observed_at;
  current = current.p05_unit_price;
  baseline = baseline;
  threshold = threshold;
  discount_percent = discount_of baseline current.p05_unit_price;
  quantity = current.quantity;
}

abbrev pub recent : AlertRule → PriceSample → PriceSample → Bool
recent rule current s = leb (saturating_sub current.observed_at s.observed_at) rule.lookback_ms

abbrev pub point : PriceSample → Millis × Copper
point s = (s.observed_at, s.p05_unit_price)

abbrev pub window_of : AlertRule → PriceSample → List PriceSample → Buckets
window_of rule current history =
    from_observations (map point (filter (recent rule current) history))

-- The percentile of a very low price.
abbrev pub severe_percent : AlertRule → ℕ
severe_percent rule = max (rule.percentile / 2) 1

-- What `evaluate` does past the floor.
abbrev pub evaluate_window : AlertRule → PriceSample → Buckets → Option Alert
evaluate_window rule current window =
    let price = current.p05_unit_price in
    let found = and_then (quantile window (fraction rule.percentile)) λ threshold.
      let past : Option Alert = and_then (quantile window (fraction 50)) λ baseline.
        and_then (quantile window (fraction (severe_percent rule))) λ severe.
          some (build current threshold baseline (if leb price severe then very_low else low)) in
      if ltb threshold price then none else past in
    if ltb (len window) rule.min_samples then none else found

abbrev pub under_floor : Copper → Option Copper → Bool
under_floor price none = false
under_floor price (some floor) = leb price floor

abbrev pub evaluate_floor : AlertRule → PriceSample → Buckets → Option Copper → Option Alert
evaluate_floor rule current window none = evaluate_window rule current window
evaluate_floor rule current window (some floor) =
    let later = evaluate_window rule current window in
    if leb current.p05_unit_price floor then some (build current floor floor very_low) else later

-- `evaluate`.
unfoldable pub evaluate : AlertRule → PriceSample → List PriceSample → Option Copper → Option Alert
evaluate rule current history floor =
    let past = evaluate_floor rule current (window_of rule current history) floor in
    if ltb current.quantity rule.min_quantity then none else past
