-- ===== src/Market/Key/Defs.antt =====
-- crates/app-core/src/market/key.rs, with the tracks of catalog.rs; text is its bytes, and the one
-- error, which repeats the text, is `none`.
use gavel.Shared.{
  ℕ, max, ◌==◌, leb, Option, none, some, List, [], ◌∷◌, if◌then◌else◌, u8_max, u32_max,
}
use gavel.Shared.HashMap.{keep}
use gavel.Shared.Bytes.{Bytes, bytes_eq, to_ascii_lowercase}
use gavel.Shared.Decimal.{decimal, parse_u64}
use gavel.Shared.Split.{split, join_with}
use gavel.Market.Defs.{ItemId, Region, eu, us, kr, tw}
use gavel.Market.Engine.Defs.{and_then}

abbrev pub RealmId : Type 0
RealmId = ℕ

pub data Track : Type 0 where
  veteran champion hero myth : Track

pub data MarketKey : Type 0 where
  commodity : (region : Region) (item : ItemId) (rank : ℕ) → MarketKey
  recipe : (region : Region) (realm : RealmId) (item : ItemId) → MarketKey
  boe : (region : Region) (realm : RealmId) (item : ItemId) (track : Option Track) → MarketKey

-- `MarketKey::commodity`.
abbrev pub new_commodity : Region → ItemId → ℕ → MarketKey
new_commodity region item rank = commodity region item (max rank 1)

abbrev pub region_of : MarketKey → Region
region_of (commodity region item rank) = region
region_of (recipe region realm item) = region
region_of (boe region realm item track) = region

abbrev pub item_of : MarketKey → ItemId
item_of (commodity region item rank) = item
item_of (recipe region realm item) = item
item_of (boe region realm item track) = item

abbrev pub realm_of : MarketKey → Option RealmId
realm_of (commodity region item rank) = none
realm_of (recipe region realm item) = some realm
realm_of (boe region realm item track) = some realm

abbrev pub tag : MarketKey → Bytes
tag (commodity region item rank) = b'c' ∷ []
tag (recipe region realm item) = b'r' ∷ []
tag (boe region realm item track) = b'b' ∷ []

-- `Region::as_str`, as bytes.
abbrev pub region_text : Region → Bytes
region_text eu = b'e' ∷ b'u' ∷ []
region_text us = b'u' ∷ b's' ∷ []
region_text kr = b'k' ∷ b'r' ∷ []
region_text tw = b't' ∷ b'w' ∷ []

-- `Region::parse`: the regions in their order, without regard to case.
unfoldable pub parse_region : Bytes → Option Region
parse_region s =
    let lower = to_ascii_lowercase s in
    if bytes_eq (region_text eu) lower
    then some eu
    else if bytes_eq (region_text us) lower
    then some us
    else if bytes_eq (region_text kr) lower
    then some kr
    else if bytes_eq (region_text tw) lower
    then some tw
    else none

-- `Track::slug`.
abbrev pub slug : Track → Bytes
slug veteran = b'v' ∷ b'e' ∷ b't' ∷ b'e' ∷ b'r' ∷ b'a' ∷ b'n' ∷ []
slug champion = b'c' ∷ b'h' ∷ b'a' ∷ b'm' ∷ b'p' ∷ b'i' ∷ b'o' ∷ b'n' ∷ []
slug hero = b'h' ∷ b'e' ∷ b'r' ∷ b'o' ∷ []
slug myth = b'm' ∷ b'y' ∷ b't' ∷ b'h' ∷ []

-- `Track::from_slug`.
unfoldable pub from_slug : Bytes → Option Track
from_slug s =
    if bytes_eq (slug veteran) s
    then some veteran
    else if bytes_eq (slug champion) s
    then some champion
    else if bytes_eq (slug hero) s
    then some hero
    else if bytes_eq (slug myth) s
    then some myth
    else none

abbrev pub track_text : Option Track → Bytes
track_text none = b'-' ∷ []
track_text (some t) = slug t

-- What `fmt` writes after the region.
abbrev pub later_fields : MarketKey → List Bytes
later_fields (commodity region item rank) = decimal item ∷ decimal rank ∷ []
later_fields (recipe region realm item) = decimal realm ∷ decimal item ∷ []
later_fields (boe region realm item track) = decimal realm ∷ decimal item ∷ track_text track ∷ []

-- `Display for MarketKey`.
unfoldable pub key_text : MarketKey → Bytes
key_text k = join_with b':' (tag k ∷ region_text (region_of k) ∷ later_fields k)

-- `parse` at a type whose greatest value is `top`.
abbrev pub parse_upto : ℕ → Bytes → Option ℕ
parse_upto top s = keep (λ n. leb n top) (parse_u64 s)

abbrev pub parse_track : Bytes → Option (Option Track)
parse_track s =
    if bytes_eq (b'-' ∷ []) s then some none else and_then (from_slug s) λ t. some (some t)

-- The arms of `from_str`, with the check that nothing is left.
unfoldable pub parse_commodity : Region → List Bytes → Option MarketKey
parse_commodity region (item ∷ rank ∷ []) =
    and_then (parse_upto u32_max item) λ i.
      and_then (parse_upto u8_max rank) λ r. if r == 0 then none else some (commodity region i r)
parse_commodity region _ = none

unfoldable pub parse_recipe : Region → List Bytes → Option MarketKey
parse_recipe region (realm ∷ item ∷ []) =
    and_then (parse_upto u32_max realm)
      λ r. and_then (parse_upto u32_max item) λ i. some (recipe region r i)
parse_recipe region _ = none

unfoldable pub parse_boe : Region → List Bytes → Option MarketKey
parse_boe region (realm ∷ item ∷ track ∷ []) = and_then (parse_upto u32_max realm) λ r.
    and_then (parse_upto u32_max item)
      λ i. and_then (parse_track track) λ t. some (boe region r i t)
parse_boe region _ = none

abbrev pub parse_tag : Bytes → Region → List Bytes → Option MarketKey
parse_tag t region rest =
    if bytes_eq (b'c' ∷ []) t
    then parse_commodity region rest
    else if bytes_eq (b'r' ∷ []) t
    then parse_recipe region rest
    else if bytes_eq (b'b' ∷ []) t
    then parse_boe region rest
    else none

unfoldable pub parse_fields : List Bytes → Option MarketKey
parse_fields (t ∷ region ∷ rest) = and_then (parse_region region) λ r. parse_tag t r rest
parse_fields _ = none

-- `from_str`.
unfoldable pub parse_key : Bytes → Option MarketKey
parse_key raw = parse_fields (split b':' raw)
