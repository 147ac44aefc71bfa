-- ===== src/Market/Depth/Curve.antt =====
-- crates/app-core/src/market/depth.rs, `Curve`: a ladder at the resolution of the archive.
use gavel.Shared.{
  ℕ, zero, suc, ◌+◌, ◌-◌, ◌*◌, ◌/◌, ◌%◌, Bool, ◌||◌, List, [], ◌∷◌, map, ◌==◌, ltb, if◌then◌else◌,
  div_ceil,
}
use mathlib.Core.Option
use mathlib.Core.Option.{Option, none, some}
use gavel.Market.Defs.{Copper}
use gavel.Market.Depth.Defs.{
  Ladder, cheapest as first_price, levels as levels_of, total as total_of, sparse_steps,
  quantity_upto, ceiling,
}

-- `CURVE_BANDS`.
abbrev pub curve_bands : List ℕ
curve_bands = 0 ∷ 1 ∷ 2 ∷ 5 ∷ 10 ∷ 20 ∷ 35 ∷ 50 ∷ 100 ∷ 200 ∷ 500 ∷ 1000 ∷ []

-- The array `cumulative` has an entry for each band.
pub record Curve : Type 0 where
  pub cheapest : Copper
  pub cumulative : List ℕ
  pub total : ℕ
  pub levels : ℕ

abbrev pub default_curve : Curve
default_curve = record {
  cheapest = 0;
  cumulative = map (λ _. 0) curve_bands;
  total = 0;
  levels = 0;
}

-- The curve of a ladder by its cheapest price.
abbrev pub curve_of : Ladder → Option Copper → Curve
curve_of l none = default_curve
curve_of l (some base) = record {
  cheapest = base;
  cumulative = map (λ percent. quantity_upto l (ceiling base percent)) curve_bands;
  total = total_of l;
  levels = levels_of l % 4294967296;
}

-- `Ladder::compact`.
unfoldable pub compact : Ladder → Curve
compact l = curve_of l (first_price l)

-- `Curve::is_sparse`.
abbrev pub curve_sparse : Curve → Bool
curve_sparse c = ltb c.levels sparse_steps

-- The linear reading between two band edges.
abbrev pub between : ℕ → ℕ → ℕ → ℕ → ℕ → ℕ
between lo hi a b percent = a + ((b - a) * (percent - lo)) / (hi - lo)

-- `position`.
unfoldable pub position : (ℕ → Bool) → List ℕ → Option ℕ
position p [] = none
position p (x ∷ xs) = let later = Option.map suc (position p xs) in if p x then some 0 else later

-- An index into an array that is long enough.
abbrev pub at : List ℕ → ℕ → ℕ
at [] i = 0
at (x ∷ xs) zero = x
at (x ∷ xs) (suc i) = at xs i

-- What lies between two band edges, or at the first of them, or beyond the last.
abbrev pub off_edge : Curve → ℕ → Option ℕ → ℕ
off_edge c percent none = c.total
off_edge c percent (some zero) = at c.cumulative 0
off_edge c percent (some (suc i)) =
    between (at curve_bands i) (at curve_bands (suc i)) (at c.cumulative i)
      (at c.cumulative (suc i)) percent

abbrev pub on_edge : Curve → ℕ → Option ℕ → ℕ
on_edge c percent none = off_edge c percent (position (λ b. ltb percent b) curve_bands)
on_edge c percent (some i) = at c.cumulative i

-- `Curve::quantity_within`.
unfoldable pub curve_within : Curve → ℕ → Option ℕ
curve_within c percent =
    if c.cheapest == 0
    then none
    else some (on_edge c percent (position (λ b. b == percent) curve_bands))

-- The price ratio at which the wanted units are reached inside a band.
abbrev pub ratio_in : ℕ → ℕ → ℕ → ℕ → ℕ → ℕ
ratio_in lo hi below units wanted =
    if units - below == 0 then lo else lo + div_ceil ((hi - lo) * (wanted - below)) (units - below)

-- The loop over the cumulative units and their bands, after a band with its units.
unfoldable pub reach_band : ℕ → ℕ → ℕ → List ℕ → List ℕ → ℕ
reach_band lo below wanted [] units = lo
reach_band lo below wanted (hi ∷ bands) [] = lo
reach_band lo below wanted (hi ∷ bands) (units ∷ rest) =
    let later = reach_band hi units wanted bands rest in
    if ltb units wanted then later else ratio_in lo hi below units wanted

-- `Curve::supply_percentile`; beyond the last band it is the last band.
unfoldable pub curve_percentile : Curve → ℕ → Option Copper
curve_percentile c percent =
    let wanted = div_ceil (c.total * percent) 100 % 18446744073709551616 in
    if curve_sparse c || c.total == 0
    then none
    else some (ceiling c.cheapest (reach_band 0 0 wanted curve_bands c.cumulative))
