-- ===== src/Market/Spark/Slots.antt =====
-- crates/app-core/src/market/engine.rs, `Spark::over`: what stands in a slot.
use gavel.Shared.{
  ℕ, zero, suc, ◌-◌, ◌*◌, ◌/◌, ◌≤◌, ◌<◌, ◌↔◌, ◌≡◌, refl, ap, subst, inl, inr, Bool, false, ◌==◌,
  ◌&&◌, ◌||◌, ltb, leb, Option, none, some, List, [], ◌∷◌, map, if◌then◌else◌, arith, get_elem?,
  Bool-cases, min, u64_mul,
}
use native.Mathlib.Nat.{le-div_iff_mul-le}
use gavel.Time.{Millis}
use gavel.Market.Defs.{Copper}
use gavel.Market.Latest.{hold, price_of, latest, Shows, latest_lem, Keeps-Shows}
use gavel.Market.Spark.Defs.{spark_slots, slot_of, hold_at, observe, vacant, over}

-- The instant stands in the `i`th sixteenth of the window, the start of the slot included and its
-- end excluded; the last slot has the end of the window too.
abbrev pub within : Millis → Millis → ℕ → Millis → Bool
within from until i at =
    leb (i * (until - from)) (16 * (at - from))
    && (ltb (16 * (at - from)) (suc i * (until - from)) || (i == 15 && at == until))

-- Whether an observation at `at` falls in the slot `i`.
abbrev pub falls : Millis → Millis → ℕ → Millis → Bool
falls from until i at = leb from at && leb at until && within from until i at

div_eq_iff : (a w i : ℕ) → 1 ≤ w → (a / w == i) ≡ (leb (i * w) a && ltb a (suc i * w))
div_eq_iff a w i p =
    let lower : i ≤ a / w ↔ i * w ≤ a = le-div_iff_mul-le p in
    let upper : suc i ≤ a / w ↔ suc i * w ≤ a = le-div_iff_mul-le p in ground (arith, lower, upper)

-- The quotient, capped at 15, against the bounds of the slot.
capped_eq :
    (q w a i : ℕ)
    → 1 ≤ w
    → i ≤ q ↔ i * w ≤ a
    → suc i ≤ q ↔ suc i * w ≤ a
    → i < 16
    → (last : Bool) → a ≤ 16 * w
    → (last ≡ (a == 16 * w))
    → (min q (spark_slots - 1) == i) ≡ (leb (i * w) a && (ltb a (suc i * w) || (i == 15 && last)))
capped_eq q w a i p lower upper b last top e = elim (Bool-cases (i == 15)) [
  | inl is_last ↦
      let same : i ≡ 15 = ground arith in
      let first : 15 ≤ q ↔ 15 * w ≤ a = subst (λ n. n ≤ q ↔ n * w ≤ a) same lower in
      rw (same, e) (ground (arith, first))
  | inr other ↦ ground (arith, lower, upper)
]

slot_of_lem :
    (from until i at : ℕ)
    → from < until
    → until < 1152921504606846976
    → i < 16
    → from ≤ at
    → at ≤ until
    → (slot_of from until at == i) ≡ within from until i at
unfolding slot_of
slot_of_lem from until i at h l b low high =
    let w = until - from in
    let a = 16 * (at - from) in
    let product : u64_mul (at - from) spark_slots ≡ a = omega arith in
    rw product (
      capped_eq (a / w) w a i (omega arith) (le-div_iff_mul-le (omega arith))
        (le-div_iff_mul-le (omega arith)) b (at == until) (omega arith) (ground arith))

get_elem?-hold_at :
    (i j at price : ℕ) (s : Option (Millis × Copper)) (slots : List (Option (Millis × Copper)))
    → get_elem? slots j ≡ some s
    → get_elem? (hold_at i at price slots) j ≡ some (if i == j then hold s at price else s)
unfolding hold_at
get_elem?-hold_at i j at price s [] e = absurd (ground arith)
get_elem?-hold_at zero zero at price s (t ∷ slots) e = ap (λ o. hold_some o) e
  where
    hold_some : Option (Option (Millis × Copper)) → Option (Option (Millis × Copper))
    hold_some none = none
    hold_some (some u) = some (hold u at price)
get_elem?-hold_at zero (suc j) at price s (t ∷ slots) e =
    let other : (0 == suc j) ≡ false = ground arith in rw other e
get_elem?-hold_at (suc i) zero at price s (t ∷ slots) e =
    let other : (suc i == 0) ≡ false = ground arith in rw other e
get_elem?-hold_at (suc i) (suc j) at price s (t ∷ slots) e =
    let same : (suc i == suc j) ≡ (i == j) = ground arith in
    rw same (get_elem?-hold_at i j at price s slots e)

get_elem?-observe :
    (from until i : ℕ) (s : Option (Millis × Copper)) (slots : List (Option (Millis × Copper)))
    (seen : List (Millis × Copper))
    → from < until
    → until < 1152921504606846976
    → i < 16
    → get_elem? slots i ≡ some s
    → get_elem? (observe from until slots seen) i ≡ some (latest (falls from until i) s seen)
unfolding observe
get_elem?-observe from until i s slots [] h l b e = e
get_elem?-observe from until i s slots ((at, price) ∷ seen) h l b e =
    elim (Bool-cases (ltb at from || ltb until at)) [
      | inl out ↦
          let other : falls from until i at ≡ false = ground arith in
          rw (out, other) (get_elem?-observe from until i s slots seen h l b e)
      | inr inside ↦
          let same : falls from until i at ≡ (slot_of from until at == i) =
            ground (arith, slot_of_lem from until i at h l b) in
          rw (inside, same)
            (get_elem?-observe from until i
              (if slot_of from until at == i then hold s at price else s)
              (hold_at (slot_of from until at) at price slots) seen h l b
              (get_elem?-hold_at (slot_of from until at) i at price s slots e))
    ]

get_elem?-vacant : (n i : ℕ) → i < n → get_elem? (vacant n) i ≡ some none
get_elem?-vacant zero i h = absurd (omega arith)
get_elem?-vacant (suc n) zero h = refl
get_elem?-vacant (suc n) (suc i) h = get_elem?-vacant n i (omega arith)

get_elem?-price_of :
    (slots : List (Option (Millis × Copper))) (i : ℕ) (s : Option (Millis × Copper))
    → get_elem? slots i ≡ some s
    → get_elem? (map price_of slots) i ≡ some (price_of s)
get_elem?-price_of [] i s e = absurd (ground arith)
get_elem?-price_of (t ∷ slots) zero s e = ap price_some e
  where
    price_some : Option (Option (Millis × Copper)) → Option (Option Copper)
    price_some none = none
    price_some (some u) = some (price_of u)
get_elem?-price_of (t ∷ slots) (suc i) s e = get_elem?-price_of slots i s e

-- Over a window that is not empty and ends before 2 ^ 60, each of the sixteen slots of `over` shows
-- the price of an observation that falls in its sixteenth of the window and has none later than it
-- there, or is empty where none falls in it. A sixteenth has its start and not its end, but for the
-- last, which has the window's end.
pub over-Shows :
    (seen : List (Millis × Copper)) (from until : Millis) (i : ℕ)
    → from < until
    → until < 1152921504606846976
    → i < 16
    → (price : Option Copper) × (get_elem? (over seen from until).slots i ≡ some price)
      × Shows (falls from until i) seen price
unfolding over
over-Shows seen from until i h l b =
    let wide : (until - from == 0) ≡ false = ground arith in
    let r : Option (Millis × Copper) = latest (falls from until i) none seen in
    rw wide (
      price_of r,
      get_elem?-price_of (observe from until (vacant spark_slots) seen) i r (
          get_elem?-observe from until i none (vacant spark_slots) seen h l b
            (get_elem?-vacant spark_slots i b)),
      Keeps-Shows (falls from until i) seen r (latest_lem (falls from until i) none seen),
    )
