-- ===== src/Market/Depth/Defs.antt =====
-- crates/app-core/src/market/depth.rs: ladders, sweeps, walls and the archived curve. A sum of u64
-- wraps; the products that the source computes in u128 cannot overflow there and are those of ℕ.
use gavel.Shared.{
  ℕ, suc, ◌+◌, ◌-◌, ◌*◌, ◌/◌, ◌%◌, min, max, Bool, Option, none, some, List, [], ◌∷◌, ◌==◌, ltb,
  leb, if◌then◌else◌, length, get_elem?, find, u64_max, u64_add, div_ceil,
}
use mathlib.Core.Option
use gavel.Shared.BTreeMap.{BTreeMap, get, insert}
use gavel.Market.Defs.{Copper, Listing}

pub record Step : Type 0 where
  pub price : Copper
  pub quantity : ℕ
  pub cumulative : ℕ

pub record Ladder : Type 0 where
  pub steps : List Step

-- `*by_price.entry(price).or_default() += quantity`.
abbrev pub or_default : Option ℕ → ℕ
or_default none = 0
or_default (some n) = n

unfoldable pub add_at : Copper → ℕ → BTreeMap ℕ → BTreeMap ℕ
add_at price quantity m = insert price (u64_add (or_default (get price m)) quantity) m

-- The loop over the listings.
unfoldable pub group : List Listing → BTreeMap ℕ → BTreeMap ℕ
group [] m = m
group (l ∷ ls) m = group ls (if l.quantity == 0 then m else add_at l.unit_price l.quantity m)

-- The `map` with its running sum.
unfoldable pub steps_of : ℕ → BTreeMap ℕ → List Step
steps_of c [] = []
steps_of c ((p, q) ∷ m) =
    record { price = p; quantity = q; cumulative = u64_add c q } ∷ steps_of (u64_add c q) m

-- `Ladder::of`.
unfoldable pub ladder_of : List Listing → Ladder
ladder_of listings = record { steps = steps_of 0 (group listings []) }

-- The loop over the steps of one ladder.
unfoldable pub pool : List Step → BTreeMap ℕ → BTreeMap ℕ
pool [] m = m
pool (s ∷ ss) m = pool ss (add_at s.price s.quantity m)

unfoldable pub pool_all : List Ladder → BTreeMap ℕ → BTreeMap ℕ
pool_all [] m = m
pool_all (l ∷ ls) m = pool_all ls (pool l.steps m)

-- `Ladder::merged`.
unfoldable pub merged : List Ladder → Ladder
merged ladders = record { steps = steps_of 0 (pool_all ladders []) }

abbrev pub levels : Ladder → ℕ
levels l = length l.steps

-- The cumulative quantity of the last step, or `default`.
abbrev pub last_cumulative : ℕ → List Step → ℕ
last_cumulative default [] = default
last_cumulative default (s ∷ ss) = last_cumulative s.cumulative ss

abbrev pub total : Ladder → ℕ
total l = last_cumulative 0 l.steps

abbrev first_price : List Step → Option Copper
first_price [] = none
first_price (s ∷ ss) = some s.price

abbrev pub cheapest : Ladder → Option Copper
cheapest l = first_price l.steps

abbrev last_price : Option Copper → List Step → Option Copper
last_price default [] = default
last_price default (s ∷ ss) = last_price (some s.price) ss

abbrev pub dearest : Ladder → Option Copper
dearest l = last_price none l.steps

abbrev pub sparse_steps : ℕ
sparse_steps = 5

-- `Ladder::is_sparse`.
abbrev pub is_sparse : Ladder → Bool
is_sparse l = ltb (levels l) sparse_steps

-- `partition_point(|s| s.price <= price)`.
unfoldable pub partition_point : Copper → List Step → ℕ
partition_point price [] = 0
partition_point price (s ∷ ss) =
    let later = suc (partition_point price ss) in if leb s.price price then later else 0

abbrev pub cumulative_at : Option Step → ℕ
cumulative_at none = 0
cumulative_at (some s) = s.cumulative

-- `Ladder::quantity_upto`.
unfoldable pub quantity_upto : Ladder → Copper → ℕ
quantity_upto l price =
    let index = partition_point price l.steps in
    if index == 0 then 0 else cumulative_at (get_elem? l.steps (index - 1))

-- The price that lies `percent` above `base`, in the range of a u64.
abbrev pub ceiling : Copper → ℕ → Copper
ceiling base percent = min ((base * (100 + percent)) / 100) u64_max

-- `Ladder::quantity_within`.
unfoldable pub quantity_within : Ladder → ℕ → Option ℕ
quantity_within l percent = Option.map (λ base. quantity_upto l (ceiling base percent)) (cheapest l)

abbrev step_price : Option Copper → Option Step → Option Copper
step_price default none = default
step_price default (some s) = some s.price

-- `Ladder::supply_percentile`. The product is one of u64.
unfoldable pub supply_percentile : Ladder → ℕ → Option Copper
supply_percentile l percent =
    let target = max (div_ceil ((total l * percent) % 18446744073709551616) 100) 1 in
    if is_sparse l
    then none
    else if total l == 0
    then none
    else step_price (dearest l) (find (λ s. leb target s.cumulative) l.steps)
