-- ===== src/Market/Defs.antt =====
-- crates/app-core/src/market/mod.rs: items, regions, money and listings.
use gavel.Shared.{ℕ, String, Bool, true, false}
use gavel.Time.{Millis}

abbrev pub ItemId : Type 0
ItemId = ℕ

pub data Region : Type 0 where
  eu us kr tw : Region

-- `Region::as_str`.
abbrev pub region_str : Region → String
region_str eu = "eu"
region_str us = "us"
region_str kr = "kr"
region_str tw = "tw"

abbrev pub region_eq : Region → Region → Bool
region_eq eu eu = true
region_eq us us = true
region_eq kr kr = true
region_eq tw tw = true
region_eq _ _ = false

-- Prices in copper, a u64.
abbrev pub Copper : Type 0
Copper = ℕ

-- One auction.
pub record Listing : Type 0 where
  pub item : ItemId
  pub unit_price : Copper
  pub quantity : ℕ

-- An observation of an item's market.
pub record PriceSample : Type 0 where
  pub item : ItemId
  pub region : Region
  pub observed_at : Millis
  pub min_unit_price : Copper
  pub p05_unit_price : Copper
  pub median_unit_price : Copper
  pub quantity : ℕ
  pub listings : ℕ
