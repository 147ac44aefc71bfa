-- ===== src/Market/Key/Text.antt =====
-- crates/app-core/src/market/key.rs: the canonical text reads back.
use gavel.Shared.{
  ℕ, ◌≤◌, ◌≡◌, refl, ap, ◌∙◌, true, false, leb, ◌==◌, Option, none, some, List, [], ◌∷◌, arith, All,
  u8_max, u32_max, u64_max,
}
use gavel.Shared.Bytes.{Bytes, bytes_eq}
use gavel.Shared.Decimal.{decimal, parse_u64-decimal, decimal-IsDigit, IsDigit}
use gavel.Shared.Split.{split-join_with, Without}
use gavel.Market.Defs.{Region, eu, us, kr, tw}
use gavel.Market.Key.Defs.{
  Track, veteran, champion, hero, myth, MarketKey, commodity, recipe, boe, tag, region_of,
  region_text, parse_region, from_slug, track_text, later_fields, key_text, parse_upto, parse_track,
  parse_commodity, parse_recipe, parse_boe, parse_fields, parse_key,
}

-- The numbers of a key are in the ranges of their types, and a rank is not zero.
abbrev pub Fits : MarketKey → Type 0
Fits (commodity region item rank) = (item ≤ u32_max) × (1 ≤ rank) × (rank ≤ u8_max)
Fits (recipe region realm item) = (realm ≤ u32_max) × (item ≤ u32_max)
Fits (boe region realm item track) = (realm ≤ u32_max) × (item ≤ u32_max)

pub parse_upto-decimal : (top n : ℕ) → n ≤ top → top ≤ u64_max → parse_upto top (decimal n) ≡ some n
parse_upto-decimal top n h t =
    let within : leb n top ≡ true = ground arith in
    rw (parse_u64-decimal n (omega arith), within) refl

pub parse_region-text : (r : Region) → parse_region (region_text r) ≡ some r
unfolding parse_region bytes_eq
parse_region-text eu = refl
parse_region-text us = refl
parse_region-text kr = refl
parse_region-text tw = refl

parse_track-text : (t : Option Track) → parse_track (track_text t) ≡ some t
unfolding from_slug bytes_eq
parse_track-text none = refl
parse_track-text (some veteran) = refl
parse_track-text (some champion) = refl
parse_track-text (some hero) = refl
parse_track-text (some myth) = refl

abbrev fields : MarketKey → List Bytes
fields k = tag k ∷ region_text (region_of k) ∷ later_fields k

parse_fields-fields : (k : MarketKey) → Fits k → parse_fields (fields k) ≡ some k
unfolding parse_fields parse_commodity parse_recipe parse_boe bytes_eq
parse_fields-fields (commodity region item rank) f =
    let some_rank : (rank == 0) ≡ false = ground (arith, f.1) in
    rw
      (
        parse_region-text region,
        parse_upto-decimal u32_max item f.0 (omega arith),
        parse_upto-decimal u8_max rank f.2 (omega arith),
        some_rank,
      )
      refl
parse_fields-fields (recipe region realm item) f =
    rw
      (
        parse_region-text region,
        parse_upto-decimal u32_max realm f.0 (omega arith),
        parse_upto-decimal u32_max item f.1 (omega arith),
      )
      refl
parse_fields-fields (boe region realm item track) f =
    rw
      (
        parse_region-text region,
        parse_upto-decimal u32_max realm f.0 (omega arith),
        parse_upto-decimal u32_max item f.1 (omega arith),
        parse_track-text track,
      )
      refl

pub digits_Without : (t : Bytes) → All IsDigit t → Without b':' t
digits_Without [] h = tt
digits_Without (c ∷ t) h = (ground (arith, h.0), digits_Without t h.1)

pub decimal-Without : (n : ℕ) → Without b':' (decimal n)
decimal-Without n = digits_Without (decimal n) (decimal-IsDigit n)

pub region_Without : (r : Region) → Without b':' (region_text r)
region_Without eu = ground arith
region_Without us = ground arith
region_Without kr = ground arith
region_Without tw = ground arith

track_Without : (t : Option Track) → Without b':' (track_text t)
track_Without none = ground arith
track_Without (some veteran) = ground arith
track_Without (some champion) = ground arith
track_Without (some hero) = ground arith
track_Without (some myth) = ground arith

fields-Without : (k : MarketKey) → All (Without b':') (fields k)
fields-Without (commodity region item rank) =
    (ground arith, (region_Without region, (decimal-Without item, (decimal-Without rank, tt))))
fields-Without (recipe region realm item) =
    (ground arith, (region_Without region, (decimal-Without realm, (decimal-Without item, tt))))
fields-Without (boe region realm item track) = (
  ground arith,
  (
    region_Without region,
    (decimal-Without realm, (decimal-Without item, (track_Without track, tt))),
  ),
)

-- The canonical text of a key, whose numbers are in range, reads back as the key; so no two keys
-- have one text.
pub parse_key-key_text : (k : MarketKey) → Fits k → parse_key (key_text k) ≡ some k
unfolding parse_key key_text
parse_key-key_text k f =
    ap parse_fields (split-join_with b':' (fields k) (omega arith) (fields-Without k))
    ∙ parse_fields-fields k f
