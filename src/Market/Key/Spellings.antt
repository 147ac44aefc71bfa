-- ===== src/Market/Key/Spellings.antt =====
-- crates/app-core/src/market/key.rs, `from_str`: texts that are not canonical.
use gavel.Shared.{
  ℕ, ◌≤◌, ◌≡◌, refl, ap, ◌∙◌, true, false, leb, ◌==◌, some, [], ◌∷◌, arith, u8_max, u32_max,
  u64_max,
}
use gavel.Shared.Bytes.{Bytes, bytes_eq}
use gavel.Shared.Decimal.{decimal, parse_u64-zero_decimal}
use gavel.Shared.Split.{join_with, split-join_with}
use gavel.Market.Defs.{Region, ItemId}
use gavel.Market.Key.Defs.{
  commodity, region_text, parse_upto, parse_commodity, parse_fields, parse_key,
}
use gavel.Market.Key.Text.{parse_region-text, parse_upto-decimal, decimal-Without, region_Without}

-- The text of a commodity with a zero before its item.
abbrev pub zero_text : Region → ItemId → ℕ → Bytes
zero_text region item rank =
    join_with b':' ((b'c' ∷ []) ∷ region_text region ∷ (b'0' ∷ decimal item) ∷ decimal rank ∷ [])

parse_upto-zero : (top n : ℕ) → n ≤ top → top ≤ u64_max → parse_upto top (b'0' ∷ decimal n) ≡ some n
parse_upto-zero top n h t =
    let within : leb n top ≡ true = ground arith in
    rw (parse_u64-zero_decimal n (omega arith), within) refl

-- The text of a commodity's key with a zero before the item is read as that key too.
pub parse_key-zero_text :
    (region : Region) (item : ItemId) (rank : ℕ)
    → item ≤ u32_max
    → 1 ≤ rank
    → rank ≤ u8_max
    → parse_key (zero_text region item rank) ≡ some (commodity region item rank)
unfolding parse_key parse_fields parse_commodity bytes_eq
parse_key-zero_text region item rank i l r =
    let some_rank : (rank == 0) ≡ false = ground arith in
    ap parse_fields (
      split-join_with b':'
        ((b'c' ∷ []) ∷ region_text region ∷ (b'0' ∷ decimal item) ∷ decimal rank ∷ []) (omega arith)
        (
          ground arith,
          (
            region_Without region,
            ((ground arith, decimal-Without item), (decimal-Without rank, tt)),
          ),
        ))
    ∙ rw
        (
          parse_region-text region,
          parse_upto-zero u32_max item i (omega arith),
          parse_upto-decimal u8_max rank r (omega arith),
          some_rank,
        )
        refl
