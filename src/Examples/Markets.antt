-- ===== src/Examples/Markets.antt =====
-- Instances for crates/app-core/src/market.
use gavel.Shared.Float.{round_to_f64, spacing}
use gavel.Shared.{
  ℕ, ◌+◌, ◌≡◌, refl, none, true, ◌≤◌, ◌<◌, ◌↔◌, min, leb, zero, suc, not, Option, some, List, [],
  ◌∷◌, arith, is_some, get_elem?, u64_max, In,
}
use gavel.Time.{Millis}
use gavel.Market.Defs.{Copper, eu, us, Listing, PriceSample}
use gavel.Market.Depth.Defs.{ladder_of, group, steps_of, add_at, quantity_upto, cheapest}
use gavel.Market.Depth.Fill.{fill, sweep, take_step}
use gavel.Market.Depth.Curve.{compact, curve_within}
use gavel.Market.Depth.Upto.{supply, any_price, quantity_upto-ladder_of}
use gavel.Market.Depth.Cheapest.{Takes, count_of, price_of, fill_least}
use gavel.Market.Depth.Bands.{Reads, compact-Reads}
use gavel.Market.Event.Defs.{ResetRule, MarketEvent, events}
use gavel.Market.Event.Resets.{starts, IsReset, events_lem}
use gavel.Market.Latest.{Shows}
use gavel.Market.Spark.Defs.{over}
use gavel.Market.Spark.Slots.{falls, over-Shows}
use gavel.Market.Engine.Defs.{
  Buckets, len, from_observations, latest_by_hour, Distribution, distribution_of, quantile,
  fraction, rank_of, partition,
}
use gavel.Market.Engine.Place.{Valuation, of_rank, admit, position_of, default_gates}
use gavel.Shared.Sort.{sort, insert_sorted}
use gavel.Market.Engine.Hours.{IsHourly, from_observations-IsHourly}
use gavel.Market.Engine.Spread.{IsSpread, distribution_of-IsSpread}
use gavel.Market.Engine.Shown.{Evidence, position_of-Evidence}
use gavel.Market.Stats.Defs.{summarise}
use gavel.Market.Stats.Summary.{Summarises, summarise-Summarises}
use gavel.Market.Alerts.Defs.{Alert, very_low, default_rule, evaluate, build, AlertRule}
use gavel.Market.Alerts.Raised.{IsRight, fresh, evaluate-IsRight}
use gavel.Market.Key.Defs.{MarketKey, boe, hero, key_text, parse_key}
use gavel.Market.Key.Text.{parse_key-key_text}
use gavel.Shared.BTreeMap.{get, insert}

abbrev stacks : List Listing
stacks =
    record { item = 1; unit_price = 10; quantity = 5 }
    ∷ record { item = 1; unit_price = 12; quantity = 3 }
    ∷ record { item = 1; unit_price = 10; quantity = 2 }
    ∷ []

quantity_upto-ladder_of_example :
    quantity_upto (ladder_of stacks) 11 ≡ supply (λ p. leb p 11) stacks
quantity_upto-ladder_of_example = quantity_upto-ladder_of stacks 11 (omega arith)

abbrev purchase : List ℕ
purchase = 6 ∷ 2 ∷ []

purchase-Takes : Takes purchase (ladder_of stacks).steps
unfolding ladder_of group steps_of add_at get insert
purchase-Takes = ground arith

purchase-count : count_of purchase ≡ (fill (ladder_of stacks) 8).filled
unfolding fill sweep take_step ladder_of group steps_of add_at get insert
purchase-count = refl

fill_least_example :
    ((fill (ladder_of stacks) 8).filled ≡ min 8 (supply any_price stacks))
    × ((fill (ladder_of stacks) 8).total_cost ≤ price_of purchase (ladder_of stacks).steps)
    × ((best : List ℕ) × Takes best (ladder_of stacks).steps
        × (count_of best ≡ (fill (ladder_of stacks) 8).filled)
        × ((fill (ladder_of stacks) 8).total_cost
            ≡ min (price_of best (ladder_of stacks).steps) u64_max))
fill_least_example = fill_least stacks 8 purchase (omega arith) purchase-Takes purchase-count

stacks-cheapest : cheapest (ladder_of stacks) ≡ some 10
unfolding ladder_of group steps_of add_at get insert
stacks-cheapest = refl

compact-Reads_example :
    (v : ℕ) × (curve_within (compact (ladder_of stacks)) 15 ≡ some v)
    × Reads (ladder_of stacks) 10 15 v
compact-Reads_example = compact-Reads stacks 10 15 (omega arith) stacks-cheapest (omega arith)

abbrev us_reset : ResetRule
us_reset = record { region = us; weekday = 1; hour_utc = 15 }

events_lem_example :
    (es : List MarketEvent) × (events 3 us_reset 86400000 1000000000 ≡ some es)
    × ((x : Millis) → In x (starts es) ↔ (IsReset us_reset x × (86400000 ≤ x) × (x < 1000000000)))
events_lem_example =
    events_lem 3 us_reset 86400000 1000000000 (omega arith) (omega arith) (omega arith)
      (omega arith)

abbrev seen : List (Millis × Copper)
seen = (1000, 50) ∷ (2000, 60) ∷ (5000000, 40) ∷ []

over-Shows_example :
    (price : Option Copper) × (get_elem? (over seen 0 8000000).slots 10 ≡ some price)
    × Shows (falls 0 8000000 10) seen price
over-Shows_example = over-Shows seen 0 8000000 10 (omega arith) (omega arith) (omega arith)

from_observations-IsHourly_example : IsHourly seen (from_observations seen)
from_observations-IsHourly_example = from_observations-IsHourly seen

abbrev history : Buckets
history = record { prices = 10 ∷ 12 ∷ 20 ∷ [] }

distribution_of-IsSpread_example :
    (d : Distribution) × (distribution_of history ≡ some d) × IsSpread history d
distribution_of-IsSpread_example =
    distribution_of-IsSpread history (ground arith) (ground arith) (omega arith)

abbrev repeat : ℕ → ℕ → List ℕ
repeat zero a = []
repeat (suc n) a = a ∷ repeat n a

-- A day that does not move has its valuation.
abbrev steady_day : Buckets
steady_day = record { prices = repeat 24 12 }

steady_valuation :
    (position_of 12 steady_day (some 80) default_gates).valuation ≡ some Valuation.typical
unfolding position_of distribution_of quantile round_to_f64 spacing rank_of partition admit of_rank
    sort insert_sorted
steady_valuation = refl

position_of-Evidence_example :
    let p = position_of 12 steady_day (some 80) default_gates in
    (is_some p.valuation ≡ not (is_some p.insufficient))
    × Evidence 12 steady_day (some 80) default_gates p.rank p.valuation
position_of-Evidence_example = position_of-Evidence 12 steady_day (some 80) default_gates

summarise-Summarises_example : Summarises stacks (summarise stacks)
summarise-Summarises_example = summarise-Summarises stacks (omega arith)

abbrev sample : PriceSample
sample = record {
  item = 7;
  region = eu;
  observed_at = 9000;
  min_unit_price = 80;
  p05_unit_price = 90;
  median_unit_price = 100;
  quantity = 30;
  listings = 4;
}

abbrev alert : Alert
alert = record {
  item = 7;
  region = eu;
  severity = very_low;
  observed_at = 9000;
  current = 90;
  baseline = 100;
  threshold = 100;
  discount_percent = 10;
  quantity = 30;
}

alert_raised : evaluate default_rule sample [] (some 100) ≡ some alert
unfolding evaluate build
alert_raised = refl

evaluate-IsRight_example :
    IsRight default_rule sample (from_observations (fresh default_rule sample [])) (some 100) alert
evaluate-IsRight_example = evaluate-IsRight default_rule sample [] (some 100) alert alert_raised

abbrev eager_rule : AlertRule
eager_rule = record default_rule { min_samples = 1 }

-- An hour before at a higher price.
abbrev dearer : PriceSample
dearer = record sample { observed_at = 8000; p05_unit_price = 95 }

one_hour :
    (len (from_observations (fresh eager_rule sample (dearer ∷ []))) ≡ 1)
    × (quantile (from_observations (fresh eager_rule sample (dearer ∷ []))) (fraction 10) ≡ some 95)
unfolding from_observations latest_by_hour insert get quantile round_to_f64 spacing sort
    insert_sorted
one_hour = (refl, refl)

-- So the sample, at 90 under a threshold of 95, raises an alert.
cheap_hour : is_some (evaluate eager_rule sample (dearer ∷ []) none) ≡ true
unfolding evaluate build from_observations latest_by_hour insert get quantile round_to_f64 spacing
    sort insert_sorted
cheap_hour = refl

abbrev helm : MarketKey
helm = boe eu 1403 271441 (some hero)

parse_key-key_text_example : parse_key (key_text helm) ≡ some helm
parse_key-key_text_example = parse_key-key_text helm (ground arith)

abbrev stair : ℕ → ℕ → List ℕ
stair zero a = []
stair (suc n) a = a ∷ stair n (a + 15)

-- The quantiles are those of f64: here the exact one would round up to 343.
quartile : quantile (record { prices = stair 67 100 }) (fraction 25) ≡ some 342
unfolding quantile round_to_f64 spacing
quartile = refl

-- Above 2 ^ 53 a price is not an f64, and the median of two equal prices is below both.
low_median :
    quantile (record { prices = 9007199254740993 ∷ 9007199254740993 ∷ [] }) (fraction 50)
    ≡ some 9007199254740992
unfolding quantile round_to_f64 spacing
low_median = refl

-- A half is rounded up.
half_up : quantile (record { prices = 10 ∷ 13 ∷ [] }) (fraction 50) ≡ some 12
unfolding quantile round_to_f64 spacing
half_up = refl
