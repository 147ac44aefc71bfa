-- ===== src/Market/Spark/Defs.antt =====
-- crates/app-core/src/market/engine.rs, `Spark`.
use gavel.Shared.{
  ℕ, zero, suc, ◌-◌, ◌/◌, min, Bool, ◌==◌, ◌||◌, ltb, Option, none, some, List, [], ◌∷◌, map,
  if◌then◌else◌, take, count, is_some, saturating_sub, u64_mul,
}
use gavel.Shared.Bytes.{Bytes}
use gavel.Shared.Decimal.{decimal, parse_u64}
use gavel.Shared.Split.{split, join_with}
use gavel.Time.{Millis}
use gavel.Market.Defs.{Copper}
use gavel.Market.Latest.{hold, price_of}

abbrev pub spark_slots : ℕ
spark_slots = 16

pub record Spark : Type 0 where
  pub slots : List (Option Copper)

unfoldable pub slot_of : Millis → Millis → Millis → ℕ
slot_of from until at = min (u64_mul (at - from) spark_slots / (until - from)) (spark_slots - 1)

-- A write to `slots[slot]`.
unfoldable pub hold_at :
    ℕ → Millis → Copper → List (Option (Millis × Copper)) → List (Option (Millis × Copper))
hold_at i at price [] = []
hold_at zero at price (s ∷ ss) = hold s at price ∷ ss
hold_at (suc i) at price (s ∷ ss) = s ∷ hold_at i at price ss

unfoldable pub observe :
    Millis
    → Millis
    → List (Option (Millis × Copper))
    → List (Millis × Copper)
    → List (Option (Millis × Copper))
observe from until slots [] = slots
observe from until slots ((at, price) ∷ rest) =
    let next =
      if ltb at from || ltb until at
      then slots
      else hold_at (slot_of from until at) at price slots in
    observe from until next rest

abbrev pub vacant : ℕ → List (Option (Millis × Copper))
vacant zero = []
vacant (suc n) = none ∷ vacant n

-- `Spark::over`.
unfoldable pub over : List (Millis × Copper) → Millis → Millis → Spark
over observations from until =
    let slots = observe from until (vacant spark_slots) observations in
    if saturating_sub until from == 0
    then record { slots = [] }
    else record { slots = map price_of slots }

-- `Spark::is_empty`.
unfoldable pub spark_is_empty : Spark → Bool
spark_is_empty s = ltb (count is_some s.slots) 2

abbrev pub field_of : Option Copper → Bytes
field_of none = []
field_of (some p) = decimal p

-- `Spark::encode`.
unfoldable pub encode : Spark → Bytes
encode s = join_with b',' (map field_of s.slots)

-- `Spark::decode`.
unfoldable pub decode : Bytes → Spark
decode [] = record { slots = [] }
decode (c ∷ raw) = record { slots = map parse_u64 (take spark_slots (split b',' (c ∷ raw))) }
