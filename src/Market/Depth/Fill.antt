-- ===== src/Market/Depth/Fill.antt =====
-- crates/app-core/src/market/depth.rs: what it costs to buy, walls, and the summary of a shelf. The
-- cost is a u128, and `impact_percent` is one of an i128 that is never negative before its cast, since
-- no unit is cheaper than the cheapest; the casts to u32 wrap.
use gavel.Shared.{
  ℕ, ◌+◌, ◌-◌, ◌*◌, ◌/◌, ◌%◌, min, Bool, true, false, ◌||◌, Option, none, some, List, [], ◌∷◌, ◌==◌,
  leb, if◌then◌else◌, u64_max,
}
use gavel.Market.Defs.{Copper}
use gavel.Market.Depth.Defs.{
  Step, Ladder, cheapest, levels, total, is_sparse, supply_percentile, quantity_within,
}

-- The variables of the loop.
pub record Sweep : Type 0 where
  pub filled : ℕ
  pub cost : ℕ
  pub clearing : Copper

-- The body of the loop.
unfoldable pub take_step : ℕ → Step → Sweep → Sweep
take_step wanted s w =
    let take = min s.quantity (wanted - w.filled) in
    record { filled = w.filled + take; cost = w.cost + take * s.price; clearing = s.price }

-- The loop over the steps, with its `break`.
unfoldable pub sweep : ℕ → List Step → Sweep → Sweep
sweep wanted [] w = w
sweep wanted (s ∷ ss) w = elim (leb wanted w.filled) [
  | true ↦ w
  | false ↦ sweep wanted ss (take_step wanted s w)
]

pub record Fill : Type 0 where
  pub wanted : ℕ
  pub filled : ℕ
  pub complete : Bool
  pub total_cost : Copper
  pub average_unit : Copper
  pub clearing_price : Copper
  pub impact_percent : ℕ

abbrev pub or_zero : Option Copper → Copper
or_zero none = 0
or_zero (some c) = c

-- How much dearer the average is than the cheapest.
unfoldable pub impact : Copper → Copper → ℕ → ℕ
impact average base filled =
    if base == 0 || filled == 0 then 0 else (((average - base) * 100) / base) % 4294967296

-- `Ladder::fill`.
unfoldable pub fill : Ladder → ℕ → Fill
fill l wanted =
    let base = or_zero (cheapest l) in
    let w = sweep wanted l.steps (record { filled = 0; cost = 0; clearing = base }) in
    let average = if w.filled == 0 then 0 else w.cost / w.filled in
    record {
      wanted = wanted;
      filled = w.filled;
      complete = w.filled == wanted;
      total_cost = min w.cost u64_max;
      average_unit = average;
      clearing_price = w.clearing;
      impact_percent = impact average base w.filled;
    }

pub record Wall : Type 0 where
  pub price : Copper
  pub quantity : ℕ
  pub share_percent : ℕ

abbrev pub wall_share : ℕ
wall_share = 20

abbrev pub share_of : ℕ → Step → ℕ
share_of whole s = ((s.quantity * 100) / whole) % 4294967296

-- The `filter_map` over the steps.
unfoldable pub walls_of : ℕ → List Step → List Wall
walls_of whole [] = []
walls_of whole (s ∷ ss) =
    let rest = walls_of whole ss in
    let share = share_of whole s in
    if leb wall_share share
    then (record { price = s.price; quantity = s.quantity; share_percent = share }) ∷ rest
    else rest

-- `Ladder::walls`.
unfoldable pub walls : Ladder → List Wall
walls l = if is_sparse l then [] else if total l == 0 then [] else walls_of (total l) l.steps

-- catalog.rs, `ItemKind`.
pub data ItemKind : Type 0 where
  consumable reagent enchant gem boe recipe : ItemKind

-- `Target::of`.
abbrev pub target_of : ItemKind → ℕ
target_of ItemKind.consumable = 20
target_of ItemKind.reagent = 200
target_of ItemKind.enchant = 5
target_of ItemKind.gem = 5
target_of ItemKind.boe = 1
target_of ItemKind.recipe = 1

pub record Depth : Type 0 where
  pub levels : ℕ
  pub total : ℕ
  pub cheapest : Copper
  pub p25 : Option Copper
  pub p50 : Option Copper
  pub within_5 : Option ℕ
  pub within_20 : Option ℕ
  pub target : ℕ
  pub fill : Fill
  pub walls : List Wall
  pub sparse : Bool

-- `filter(|_| !is_sparse)`.
abbrev pub unless {ℓ} : {A : Type ℓ} → Bool → Option A → Option A
unless true o = none
unless false o = o

-- `Depth::of`.
unfoldable pub depth_of : Ladder → ℕ → Option Depth
depth_of l target = elim (cheapest l) [
  | none ↦ none
  | some base ↦ some (record {
    levels = levels l % 4294967296;
    total = total l;
    cheapest = base;
    p25 = supply_percentile l 25;
    p50 = supply_percentile l 50;
    within_5 = unless (is_sparse l) (quantity_within l 5);
    within_20 = unless (is_sparse l) (quantity_within l 20);
    target = target;
    fill = fill l target;
    walls = walls l;
    sparse = is_sparse l;
  })
]
