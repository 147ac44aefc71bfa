-- ===== src/Market/Stats/Defs.antt =====
-- crates/app-core/src/market/stats.rs. A sum and a product of u64 wrap.
use gavel.Shared.{
  ℕ, ◌%◌, max, ◌==◌, leb, Option, none, some, List, [], ◌∷◌, if◌then◌else◌, length, u64_add,
  u64_mul, div_ceil,
}
use gavel.Time.{Millis}
use gavel.Market.Defs.{ItemId, Region, Copper, Listing, PriceSample}

pub record PriceStats : Type 0 where
  pub min : Copper
  pub p05 : Copper
  pub median : Copper
  pub quantity : ℕ
  pub listings : ℕ

-- `sort_unstable_by_key` by the price; the order of equal prices is left open by it.
unfoldable pub insert_listing : Listing → List Listing → List Listing
insert_listing l [] = l ∷ []
insert_listing l (m ∷ ls) =
    let rest = insert_listing l ls in if leb l.unit_price m.unit_price then l ∷ m ∷ ls else m ∷ rest

unfoldable pub sort_listings : List Listing → List Listing
sort_listings [] = []
sort_listings (l ∷ ls) = insert_listing l (sort_listings ls)

unfoldable pub sum_quantities : ℕ → List Listing → ℕ
sum_quantities seen [] = seen
sum_quantities seen (l ∷ ls) = sum_quantities (u64_add seen l.quantity) ls

abbrev pub last_price : Copper → List Listing → Copper
last_price default [] = default
last_price default (l ∷ ls) = last_price l.unit_price ls

-- The loop of `quantile_price`, with what it returns after the loop.
unfoldable pub consume : ℕ → ℕ → List Listing → Copper → Copper
consume target seen [] after = after
consume target seen (l ∷ ls) after =
    let rest = consume target (u64_add seen l.quantity) ls after in
    if leb target (u64_add seen l.quantity) then l.unit_price else rest

-- `quantile_price`.
unfoldable pub quantile_price : List Listing → ℕ → ℕ → Copper
quantile_price listings total percent =
    consume (max (div_ceil (u64_mul total percent) 100) 1) 0 listings (last_price 0 listings)

abbrev pub summarise_sorted : List Listing → Option PriceStats
summarise_sorted [] = none
summarise_sorted (l ∷ ls) =
    let total = sum_quantities 0 (l ∷ ls) in
    if total == 0
    then none
    else some (record {
      min = l.unit_price;
      p05 = quantile_price (l ∷ ls) total 5;
      median = quantile_price (l ∷ ls) total 50;
      quantity = total;
      listings = length (l ∷ ls) % 4294967296;
    })

-- `summarise`; the empty list is returned for before it is sorted, to the same end.
unfoldable pub summarise : List Listing → Option PriceStats
summarise listings = summarise_sorted (sort_listings listings)

-- `PriceStats::into_sample`.
abbrev pub into_sample : PriceStats → ItemId → Region → Millis → PriceSample
into_sample s item region observed_at = record {
  item = item;
  region = region;
  observed_at = observed_at;
  min_unit_price = s.min;
  p05_unit_price = s.p05;
  median_unit_price = s.median;
  quantity = s.quantity;
  listings = s.listings;
}
