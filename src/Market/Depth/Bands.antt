-- ===== src/Market/Depth/Bands.antt =====
-- crates/app-core/src/market/depth.rs, `Ladder::compact`: what an archived curve answers as the ladder.
use gavel.Shared.{
  ℕ, zero, suc, ◌+◌, ◌-◌, ◌*◌, ◌/◌, ◌≤◌, ◌<◌, ◌≡◌, refl, sym, ap, ◌∙◌, ◌⊎◌, inl, inr, true, false,
  Option, none, some, List, [], ◌∷◌, arith, ◌==◌, ltb, leb, Option-cases, length, if◌then◌else◌,
  u64_max, ==_iff,
}
use mathlib.Core.Option
use gavel.Market.Defs.{Copper, Listing}
use gavel.Market.Depth.Defs.{
  Ladder, ladder_of, quantity_upto, quantity_within, ceiling, cheapest, total,
}
use gavel.Market.Depth.Upto.{supply, any_price, quantity_upto-ladder_of}
use gavel.Market.Depth.Curve.{
  compact, curve_bands, curve_within, position, at, between, curve_of, off_edge, on_edge,
}
use gavel.Market.Depth.Positions.{position-some, position-before, position-none, at-map}

scaled-le : (n x y : ℕ) → x ≤ y → 0 < y → (n * x) / y ≤ n
scaled-le n x y h k = grind arith

between_bounds :
    (lo hi a b percent : ℕ)
    → lo ≤ percent
    → percent < hi
    → a ≤ b
    → (a ≤ between lo hi a b percent) × (between lo hi a b percent ≤ b)
between_bounds lo hi a b percent h k l = (
  omega arith,
  omega (arith, scaled-le (b - a) (percent - lo) (hi - lo) (omega arith) (omega arith)),
)

supply_mono :
    (ls : List Listing) (p q : Copper) → p ≤ q → supply (λ c. leb c p) ls ≤ supply (λ c. leb c q) ls
supply_mono [] p q h = omega arith
supply_mono (l ∷ ls) p q h = ground (arith, supply_mono ls p q h)

quantity_upto_mono :
    (ls : List Listing) (p q : Copper)
    → supply any_price ls ≤ u64_max
    → p ≤ q
    → quantity_upto (ladder_of ls) p ≤ quantity_upto (ladder_of ls) q
quantity_upto_mono ls p q fits h =
    rw (quantity_upto-ladder_of ls p fits, quantity_upto-ladder_of ls q fits) (supply_mono ls p q h)

-- What a curve's answer on a percentage is, against the ladder it was made of.
abbrev pub Reads : Ladder → Copper → ℕ → ℕ → Type 0
Reads l base percent v =
    (quantity_within l percent ≡ some v)
    ⊎ ((i : ℕ) × (at curve_bands i < percent)
        × (percent < at curve_bands (suc i))
        × (quantity_upto l (ceiling base (at curve_bands i)) ≤ v)
        × (v ≤ quantity_upto l (ceiling base (at curve_bands (suc i)))))
    ⊎ ((1000 < percent) × (v ≡ total l))

module _ (l : Ladder) (base : Copper) (percent : ℕ) (priced : 0 < base) where
  within_edge :
      (i : ℕ)
      → position (λ b. b == percent) curve_bands ≡ some i
      → curve_within (curve_of l (some base)) percent
        ≡ some (quantity_upto l (ceiling base (at curve_bands i)))
  unfolding curve_within
  within_edge i found =
      let c = curve_of l (some base) in
      let nonzero : (base == 0) ≡ false = ground arith in
      (λ j. if nonzero j then none else some (on_edge c percent (found j)))
      ∙ ap some (
          at-map (λ p. quantity_upto l (ceiling base p)) curve_bands i
            (position-some (λ b. b == percent) curve_bands i found).0)

  within_off :
      (o : Option ℕ)
      → position (λ b. b == percent) curve_bands ≡ none
      → position (λ b. ltb percent b) curve_bands ≡ o
      → curve_within (curve_of l (some base)) percent
        ≡ some (off_edge (curve_of l (some base)) percent o)
  unfolding curve_within
  within_off o off found =
      let c = curve_of l (some base) in
      let nonzero : (base == 0) ≡ false = ground arith in
      (λ j. if nonzero j then none else some (on_edge c percent (off j)))
      ∙ ap (λ p. some (off_edge c percent p)) found

exact_edge :
    (l : Ladder) (base percent i : ℕ)
    → cheapest l ≡ some base
    → (at curve_bands i == percent) ≡ true
    → quantity_within l percent ≡ some (quantity_upto l (ceiling base (at curve_bands i)))
unfolding quantity_within
exact_edge l base percent i e found =
    ap (Option.map (λ b. quantity_upto l (ceiling b percent))) e
    ∙ ap (λ p. some (quantity_upto l (ceiling base p)))
        (sym ((==_iff (at curve_bands i) percent).0 found))

past_last : (percent : ℕ) → ltb percent 1000 ≡ false → (1000 == percent) ≡ false → 1000 < percent
past_last percent h k = ground arith

no_first : (percent : ℕ) → ltb percent 0 ≡ true → ⊥
no_first percent h = ground arith

around :
    (percent a b : ℕ)
    → ltb percent a ≡ false
    → ltb percent b ≡ true
    → (a == percent) ≡ false
    → (a < percent) × (percent < b)
around percent a b h k l = ground arith

ceiling_mono : (base x y : ℕ) → x ≤ y → ceiling base x ≤ ceiling base y
ceiling_mono base x y h =
    let scaled : base * (100 + x) ≤ base * (100 + y) = grind arith in omega arith

module _ (ls : List Listing) (base percent : ℕ) (fits : supply any_price ls ≤ u64_max) where
  upto_band : ℕ → ℕ
  upto_band p = quantity_upto (ladder_of ls) (ceiling base p)

  -- Between two edges the curve is read between the ladder's answers at them.
  band_bounds :
      (i : ℕ)
      → suc i < length curve_bands
      → at curve_bands i < percent
      → percent < at curve_bands (suc i)
      → let v = off_edge (curve_of (ladder_of ls) (some base)) percent (some (suc i)) in
        (upto_band (at curve_bands i) ≤ v) × (v ≤ upto_band (at curve_bands (suc i)))
  unfolding upto_band
  band_bounds i lt lo hi =
      let q = λ (p : ℕ). quantity_upto (ladder_of ls) (ceiling base p) in
      let a = at-map q curve_bands i (omega arith) in
      let b = at-map q curve_bands (suc i) lt in
      let rises =
        quantity_upto_mono ls (ceiling base (at curve_bands i))
          (ceiling base (at curve_bands (suc i))) fits
          (ceiling_mono base (at curve_bands i) (at curve_bands (suc i)) (omega arith)) in
      rw (a, b)
        (between_bounds (at curve_bands i) (at curve_bands (suc i)) (q (at curve_bands i))
          (q (at curve_bands (suc i))) percent (omega arith) hi rises)

-- A curve made of a ladder whose cheapest unit is not free answers, for every percentage, as the ladder
-- does at the edges of its bands, between the ladder's answers at the two edges around it, or with
-- the whole supply beyond the last band.
pub compact-Reads :
    (ls : List Listing) (base percent : ℕ)
    → supply any_price ls ≤ u64_max
    → cheapest (ladder_of ls) ≡ some base
    → 0 < base
    → (v : ℕ) × (curve_within (compact (ladder_of ls)) percent ≡ some v)
      × Reads (ladder_of ls) base percent v
unfolding compact upto_band
compact-Reads ls base percent fits e pos =
    let l = ladder_of ls in
    let read = λ (v : ℕ) (h : curve_within (curve_of l (some base)) percent ≡ some v).
      ap (λ c. curve_within (curve_of l c) percent) e ∙ h in
    elim (Option-cases (position (λ b. b == percent) curve_bands)) [
      | inr (i, found) ↦ (
        quantity_upto l (ceiling base (at curve_bands i)),
        read _ (within_edge l base percent pos i found),
        inl (
            exact_edge l base percent i e
              (position-some (λ b. b == percent) curve_bands i found).1),
      )
      | inl off ↦ elim (Option-cases (position (λ b. ltb percent b) curve_bands)) [
        | inl beyond ↦
            let last = position-none (λ b. ltb percent b) curve_bands 11 beyond (omega arith) in
            let other = position-none (λ b. b == percent) curve_bands 11 off (omega arith) in
            (
              total l,
              read _ (within_off l base percent pos none off beyond),
              inr (inr (past_last percent last other, refl)),
            )
        | inr (zero, first) ↦
            absurd (no_first percent (position-some (λ b. ltb percent b) curve_bands 0 first).1)
        | inr (suc i, above) ↦
            let (lt, here) = position-some (λ b. ltb percent b) curve_bands (suc i) above in
            let (lo, hi) =
              around percent (at curve_bands i) (at curve_bands (suc i))
                (position-before (λ b. ltb percent b) curve_bands i above) here
                (position-none (λ b. b == percent) curve_bands i off (omega arith)) in
            let (a, b) = band_bounds ls base percent fits i lt lo hi in
            (
              off_edge (curve_of l (some base)) percent (some (suc i)),
              read _ (within_off l base percent pos (some (suc i)) off above),
              inr (inl (i, lo, hi, a, b)),
            )
      ]
    ]
