-- ===== src/Market/Alerts/Raised.antt =====
-- crates/app-core/src/market/alerts.rs, `evaluate`: an alert is raised for a reason, and where there
-- is a reason one is raised.
use gavel.Shared.{
  ℕ, ◌+◌, ◌*◌, ◌==◌, ◌≤◌, ◌≡◌, refl, ap, subst, ◌⊎◌, inl, inr, Bool, true, false, ltb, leb, Option,
  none, some, List, [], ◌∷◌, arith, if◌then◌else◌, map, filter, Bool-cases, is_some,
}
use gavel.Shared.Float.{F64}
use gavel.Time.{Millis}
use gavel.Market.Defs.{Copper, PriceSample}
use gavel.Market.Engine.Defs.{Buckets, len, fraction, quantile, and_then, from_observations}
use gavel.Market.Alerts.Defs.{
  AlertSeverity, low, very_low, AlertRule, Alert, build, discount_of, window_of, recent, point,
  severe_percent, evaluate_window, evaluate_floor, evaluate,
}

-- The samples that are not older than the rule looks back.
abbrev pub fresh : AlertRule → PriceSample → List PriceSample → List (Millis × Copper)
fresh rule current [] = []
fresh rule current (s ∷ ss) =
    let rest = fresh rule current ss in
    if leb current.observed_at (s.observed_at + rule.lookback_ms)
    then (s.observed_at, s.p05_unit_price) ∷ rest
    else rest

fresh_lem :
    (rule : AlertRule) (current : PriceSample) (history : List PriceSample)
    → map point (filter (recent rule current) history) ≡ fresh rule current history
fresh_lem rule current [] = refl
fresh_lem rule current (s ∷ ss) = ground (arith, fresh_lem rule current ss)

-- Half of the percentile, the half cut off, and at least 1.
abbrev pub HalfOf : ℕ → ℕ → Type 0
HalfOf percentile q =
    (percentile ≤ 1 → q ≡ 1) × (2 ≤ percentile → (2 * q ≤ percentile) × (percentile ≤ 2 * q + 1))

severe_percent_lem : (rule : AlertRule) → HalfOf rule.percentile (severe_percent rule)
severe_percent_lem rule = ((λ h. omega arith), (λ h. (omega arith, omega arith)))

-- The alert of a price against its history.
pub record IsLow (rule : AlertRule) (current : PriceSample) (window : Buckets) (a : Alert)
    : Type 0 where
  pub evidence : rule.min_samples ≤ len window
  pub threshold_eq : quantile window (fraction rule.percentile) ≡ some a.threshold
  pub baseline_eq : quantile window (fraction 50) ≡ some a.baseline
  pub reached : current.p05_unit_price ≤ a.threshold
  pub half : ℕ
  pub half_of : HalfOf rule.percentile half
  pub severe : Copper
  pub severe_eq : quantile window (fraction half) ≡ some severe
  pub severity_eq : a.severity ≡ (if leb current.p05_unit_price severe then very_low else low)

-- The alert of a price at or below the floor.
pub record IsFloor (current : PriceSample) (floor : Copper) (a : Alert) : Type 0 where
  pub reached : current.p05_unit_price ≤ floor
  pub threshold_eq : a.threshold ≡ floor
  pub severity_eq : a.severity ≡ very_low

-- What is true of every alert.
pub record IsRight (rule : AlertRule) (current : PriceSample) (window : Buckets)
    (floor : Option Copper) (a : Alert) : Type 0 where
  pub traded : rule.min_quantity ≤ current.quantity
  pub reason : ((f : Copper) × (floor ≡ some f) × IsFloor current f a) ⊎ IsLow rule current window a
  pub price : a.current ≡ current.p05_unit_price
  pub discount : a.discount_percent ≤ 100

some_inj {ℓ} : {A : Type ℓ} {a b : A} → some a ≡ some b → a ≡ b
some_inj e = ground (arith, e)

discount-le : (baseline current : Copper) → discount_of baseline current ≤ 100
discount-le baseline current = ground arith

and_then-some {ℓ κ} :
    {A : Type ℓ} {B : Type κ} (o : Option A) (f : A → Option B) (b : B)
    → and_then o f ≡ some b
    → (a : A) × (o ≡ some a) × (f a ≡ some b)
and_then-some none f b e = absurd (ground (arith, e))
and_then-some (some a) f b e = (a, refl, e)

module _ (rule : AlertRule) (current : PriceSample) (window : Buckets) where
  severity_at : Copper → AlertSeverity
  severity_at severe = if leb current.p05_unit_price severe then very_low else low

  past : Copper → Option Alert
  unfolding severity_at
  past threshold = and_then (quantile window (fraction 50)) λ baseline.
      and_then (quantile window (fraction (severe_percent rule)))
        λ severe. some (build current threshold baseline (severity_at severe))

  past-IsLow :
      (threshold : Copper) (a : Alert)
      → rule.min_samples ≤ len window
      → quantile window (fraction rule.percentile) ≡ some threshold
      → current.p05_unit_price ≤ threshold
      → past threshold ≡ some a
      → IsLow rule current window a
        × (a.current ≡ current.p05_unit_price)
        × (a.discount_percent ≤ 100)
  unfolding past severity_at build
  past-IsLow threshold a n t h e =
      let (baseline, b, f) =
        and_then-some (quantile window (fraction 50))
          (λ baseline.
            and_then (quantile window (fraction (severe_percent rule)))
              λ severe. some (build current threshold baseline (severity_at severe)))
          a e in
      let (severe, s, g) =
        and_then-some (quantile window (fraction (severe_percent rule)))
          (λ severe. some (build current threshold baseline (severity_at severe))) a f in
      let built : IsLow rule current window
          (build current threshold baseline (severity_at severe)) =
        record {
          evidence = n;
          threshold_eq = t;
          baseline_eq = b;
          reached = h;
          half = severe_percent rule;
          half_of = severe_percent_lem rule;
          severe = severe;
          severe_eq = s;
          severity_eq = refl;
        } in
      subst
        (λ x.
          IsLow rule current window x
          × (x.current ≡ current.p05_unit_price)
          × (x.discount_percent ≤ 100))
        (some_inj g) (built, refl, discount-le baseline current.p05_unit_price)

  evaluate_window-IsLow :
      (a : Alert)
      → evaluate_window rule current window ≡ some a
      → IsLow rule current window a
        × (a.current ≡ current.p05_unit_price)
        × (a.discount_percent ≤ 100)
  unfolding past severity_at build
  evaluate_window-IsLow a e = elim (Bool-cases (ltb (len window) rule.min_samples)) [
    | inl h ↦ let e' : none ≡ some a = rw h at e in absurd (ground (arith, e'))
    | inr h ↦
        let e' : and_then (quantile window (fraction rule.percentile))
              (λ threshold. if ltb threshold current.p05_unit_price then none else past threshold)
            ≡ some a =
          rw h at e in
        let (threshold, t, f) =
          and_then-some (quantile window (fraction rule.percentile))
            (λ threshold. if ltb threshold current.p05_unit_price then none else past threshold) a
            e' in
        elim (Bool-cases (ltb threshold current.p05_unit_price)) [
          | inl high ↦ let f' : none ≡ some a = rw high at f in absurd (ground (arith, f'))
          | inr reached ↦
              let f' : past threshold ≡ some a = rw reached at f in
              past-IsLow threshold a (ground arith) t (ground arith) f'
        ]
  ]

  evaluate_floor-IsRight :
      (floor : Option Copper) (a : Alert)
      → rule.min_quantity ≤ current.quantity
      → evaluate_floor rule current window floor ≡ some a
      → IsRight rule current window floor a
  unfolding build
  evaluate_floor-IsRight none a n e =
      let (l, p, d) = evaluate_window-IsLow a e in
      record { traded = n; reason = inr l; price = p; discount = d }
  evaluate_floor-IsRight (some f) a n e = elim (Bool-cases (leb current.p05_unit_price f)) [
    | inr h ↦
        let e' : evaluate_window rule current window ≡ some a = rw h at e in
        let (l, p, d) = evaluate_window-IsLow a e' in
        record { traded = n; reason = inr l; price = p; discount = d }
    | inl h ↦
        let e' : some (build current f f very_low) ≡ some a = rw h at e in
        subst (IsRight rule current window (some f)) (some_inj e') (record {
          traded = n;
          reason =
              inl (
                f,
                refl,
                record { reached = ground arith; threshold_eq = refl; severity_eq = refl },
              );
          price = refl;
          discount = discount-le f current.p05_unit_price;
        })
  ]

-- An alert that `evaluate` raises is of a market of at least the rule's quantity, and its price is at
-- or under the floor, which makes it very low; or the hours of the samples that are not older than
-- the rule looks back are enough, the price is at or under their quantile at the rule's percentile,
-- which is the threshold, the baseline is their median, and it is very low exactly at or under their
-- quantile at half that percentile. The discount is at most 100.
pub evaluate-IsRight :
    (rule : AlertRule) (current : PriceSample) (history : List PriceSample) (floor : Option Copper)
    (a : Alert)
    → evaluate rule current history floor ≡ some a
    → IsRight rule current (from_observations (fresh rule current history)) floor a
unfolding evaluate
evaluate-IsRight rule current history floor a e =
    elim (Bool-cases (ltb current.quantity rule.min_quantity)) [
      | inl h ↦ let e' : none ≡ some a = rw h at e in absurd (ground (arith, e'))
      | inr h ↦
          let e' : evaluate_floor rule current (window_of rule current history) floor ≡ some a =
            rw h at e in
          let right : IsRight rule current (window_of rule current history) floor a =
            evaluate_floor-IsRight rule current (window_of rule current history) floor a
              (ground arith) e' in
          subst (λ os. IsRight rule current (from_observations os) floor a)
            (fresh_lem rule current history) right
    ]

if-some {ℓ} :
    {A : Type ℓ} (c d : Bool) (a b : A)
    → c ≡ false
    → (x : A) × ((if c then none else if d then some a else some b) ≡ some x)
if-some true d a b e = absurd (ground arith)
if-some false true a b e = (a, refl)
if-some false false a b e = (b, refl)

-- Prices, at least one, have every quantile.
quantile-some : (b : Buckets) (p : F64) → 1 ≤ len b → (price : Copper) × (quantile b p ≡ some price)
unfolding quantile
quantile-some b p l = if-some (len b == 0) (len b == 1) _ _ (ground arith)

module _ (rule : AlertRule) (current : PriceSample) (window : Buckets) (threshold : Copper)
    (enough : rule.min_samples ≤ len window) (some_hours : 1 ≤ len window)
    (t : quantile window (fraction rule.percentile) ≡ some threshold)
    (reached : current.p05_unit_price ≤ threshold) where
  window-low : is_some (evaluate_window rule current window) ≡ true
  window-low =
      let (median, m) = quantile-some window (fraction 50) some_hours in
      let (severe, s) = quantile-some window (fraction (severe_percent rule)) some_hours in
      let samples : ltb (len window) rule.min_samples ≡ false = ground arith in
      let low_enough : ltb threshold current.p05_unit_price ≡ false = ground arith in
      rw (samples, t, low_enough, m, s) refl

  floor-low : (floor : Option Copper) → is_some (evaluate_floor rule current window floor) ≡ true
  floor-low none = window-low
  floor-low (some f) = elim (Bool-cases (leb current.p05_unit_price f)) [
    | inl h ↦ rw h refl
    | inr h ↦ rw h window-low
  ]

-- Where the market has the rule's quantity and the hours of the samples that are not older than the
-- rule looks back are enough, and at least one, a price at or under their quantile at the rule's
-- percentile raises an alert, whatever the floor.
pub evaluate-raises :
    (rule : AlertRule) (current : PriceSample) (history : List PriceSample) (floor : Option Copper)
    (threshold : Copper)
    → rule.min_quantity ≤ current.quantity
    → rule.min_samples ≤ len (from_observations (fresh rule current history))
    → 1 ≤ len (from_observations (fresh rule current history))
    → quantile (from_observations (fresh rule current history)) (fraction rule.percentile)
      ≡ some threshold
    → current.p05_unit_price ≤ threshold
    → is_some (evaluate rule current history floor) ≡ true
unfolding evaluate
evaluate-raises rule current history floor threshold n l k t h =
    let window = from_observations (fresh rule current history) in
    let traded : ltb current.quantity rule.min_quantity ≡ false = ground arith in
    let same : window_of rule current history ≡ window =
      ap (λ os. from_observations os) (fresh_lem rule current history) in
    rw (traded, same) (floor-low rule current window threshold l k t h floor)
