-- ===== src/Market/Spark/Text.antt =====
-- crates/app-core/src/market/engine.rs, `Spark`: the stored form reads back.
use gavel.Shared.{
  ℕ, zero, suc, ◌≤◌, ◌≡◌, refl, ap, ◌∙◌, Option, none, some, List, [], ◌∷◌, map, arith, ◌-◌, ◌==◌,
  ◌||◌, ltb, inl, inr, Bool-cases, take, length, length-append, length-map, All, u64_max,
}
use gavel.Shared.Bytes.{Bytes}
use gavel.Shared.Decimal.{decimal, parse_u64, parse_u64-decimal, decimal-IsDigit, IsDigit}
use gavel.Shared.Split.{split, join_with, split-join_with, Without}
use gavel.Time.{Millis}
use gavel.Market.Defs.{Copper}
use gavel.Market.Latest.{hold, price_of}
use gavel.Market.Spark.Defs.{
  Spark, spark_slots, slot_of, hold_at, observe, vacant, over, field_of, encode, decode,
}

abbrev pub Fits : Option Copper → Type 0
Fits none = Unit
Fits (some p) = p ≤ u64_max

digits_Without : (t : Bytes) → All IsDigit t → Without b',' t
digits_Without [] h = tt
digits_Without (c ∷ t) h = (ground (arith, h.0), digits_Without t h.1)

fields-Without : (slots : List (Option Copper)) → All (Without b',') (map field_of slots)
fields-Without [] = tt
fields-Without (none ∷ slots) = (tt, fields-Without slots)
fields-Without (some p ∷ slots) =
    (digits_Without (decimal p) (decimal-IsDigit p), fields-Without slots)

read_fields :
    (n : ℕ) (slots : List (Option Copper))
    → length slots ≤ n
    → All Fits slots
    → map parse_u64 (take n (map field_of slots)) ≡ slots
unfolding parse_u64
read_fields zero [] l f = refl
read_fields (suc n) [] l f = refl
read_fields zero (s ∷ slots) l f = absurd (omega arith)
read_fields (suc n) (none ∷ slots) l f = ap (λ r. none ∷ r) (read_fields n slots (omega arith) f.1)
read_fields (suc n) (some p ∷ slots) l f =
    rw (parse_u64-decimal p f.0, read_fields n slots (omega arith) f.1) refl

abbrev spark_of : List (Option Copper) → Spark
spark_of slots = record { slots = slots }

abbrev spark_of_fields : List Bytes → Spark
spark_of_fields fields = spark_of (map parse_u64 (take spark_slots fields))

abbrev read_back : Bytes → Spark
read_back raw = spark_of_fields (split b',' raw)

decode-text : (raw : Bytes) → 1 ≤ length raw → decode raw ≡ read_back raw
unfolding decode
decode-text [] l = absurd (omega arith)
decode-text (c ∷ raw) l = refl

length-join_with : (f g : Bytes) (fs : List Bytes) → 1 ≤ length (join_with b',' (f ∷ g ∷ fs))
unfolding join_with
length-join_with f g fs = omega (arith, length-append f (b',' ∷ join_with b',' (g ∷ fs)))

length-encoded :
    (slots : List (Option Copper))
    → 2 ≤ length slots
    → 1 ≤ length (join_with b',' (map field_of slots))
length-encoded [] l = absurd (omega arith)
length-encoded (s ∷ []) l = absurd (omega arith)
length-encoded (s ∷ t ∷ slots) l = length-join_with (field_of s) (field_of t) (map field_of slots)

-- A spark of at least two slots and at most sixteen, with prices of 64 bits, reads back as it was
-- written.
pub decode-encode :
    (s : Spark)
    → 2 ≤ length s.slots
    → length s.slots ≤ spark_slots
    → All Fits s.slots
    → decode (encode s) ≡ s
unfolding encode
decode-encode s l m f =
    let fields : List Bytes = map field_of s.slots in
    let several : 1 ≤ length fields = omega (arith, length-map field_of s.slots) in
    decode-text (join_with b',' fields) (length-encoded s.slots l)
    ∙ ap (spark_of_fields) (split-join_with b',' fields several (fields-Without s.slots))
    ∙ ap spark_of (read_fields spark_slots s.slots m f)

decode-encode_empty : decode (encode (spark_of [])) ≡ spark_of []
unfolding decode encode join_with
decode-encode_empty = refl

-- The observations are of prices that fit 64 bits.
abbrev pub PricesFit : List (Millis × Copper) → Type 0
PricesFit [] = Unit
PricesFit ((at, price) ∷ rest) = (price ≤ u64_max) × PricesFit rest

length-hold_at :
    (i at price : ℕ) (slots : List (Option (Millis × Copper)))
    → length (hold_at i at price slots) ≡ length slots
unfolding hold_at
length-hold_at i at price [] = refl
length-hold_at zero at price (s ∷ slots) = refl
length-hold_at (suc i) at price (s ∷ slots) = ap suc (length-hold_at i at price slots)

length-observe :
    (from until : Millis) (slots : List (Option (Millis × Copper))) (seen : List (Millis × Copper))
    → length (observe from until slots seen) ≡ length slots
unfolding observe
length-observe from until slots [] = refl
length-observe from until slots ((at, price) ∷ seen) = ground (
  arith,
  length-observe from until slots seen,
  length-observe from until (hold_at (slot_of from until at) at price slots) seen,
  length-hold_at (slot_of from until at) at price slots,
)

Fits-hold :
    (s : Option (Millis × Copper)) (at price : ℕ)
    → price ≤ u64_max
    → Fits (price_of s)
    → Fits (price_of (hold s at price))
Fits-hold none at price b f = b
Fits-hold (some (t, p)) at price b f = ground (arith, f)

Fits-hold_at :
    (i at price : ℕ) (slots : List (Option (Millis × Copper)))
    → price ≤ u64_max
    → All Fits (map price_of slots)
    → All Fits (map price_of (hold_at i at price slots))
unfolding hold_at
Fits-hold_at i at price [] b f = f
Fits-hold_at zero at price (s ∷ slots) b f = (Fits-hold s at price b f.0, f.1)
Fits-hold_at (suc i) at price (s ∷ slots) b f = (f.0, Fits-hold_at i at price slots b f.1)

Fits-observe :
    (from until : Millis) (slots : List (Option (Millis × Copper))) (seen : List (Millis × Copper))
    → PricesFit seen
    → All Fits (map price_of slots)
    → All Fits (map price_of (observe from until slots seen))
unfolding observe
Fits-observe from until slots [] b f = f
Fits-observe from until slots ((at, price) ∷ seen) b f =
    elim (Bool-cases (ltb at from || ltb until at)) [
      | inl e ↦ rw e (Fits-observe from until slots seen b.1 f)
      | inr e ↦ rw e (
          Fits-observe from until (hold_at (slot_of from until at) at price slots) seen b.1
            (Fits-hold_at (slot_of from until at) at price slots b.0 f))
    ]

-- The spark of any observations, with prices of 64 bits, reads back as it was written.
pub decode-encode-over :
    (seen : List (Millis × Copper)) (from until : Millis)
    → PricesFit seen
    → decode (encode (over seen from until)) ≡ over seen from until
unfolding over
decode-encode-over seen from until b = elim (Bool-cases (until - from == 0)) [
  | inl e ↦ rw e decode-encode_empty
  | inr e ↦
      let slots = map price_of (observe from until (vacant spark_slots) seen) in
      let sixteen : length slots ≡ 16 =
        length-map price_of (observe from until (vacant spark_slots) seen)
        ∙ length-observe from until (vacant spark_slots) seen in
      rw e (
        decode-encode (spark_of slots) (omega (arith, sixteen)) (omega (arith, sixteen))
          (Fits-observe from until (vacant spark_slots) seen b (ground arith)))
]
