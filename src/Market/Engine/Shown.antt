-- ===== src/Market/Engine/Shown.antt =====
-- crates/app-core/src/market/engine.rs, `Position::of`: what is shown and what is withheld.
use gavel.Shared.{
  ℕ, ◌%◌, ◌≤◌, ◌≡◌, refl, inl, inr, ltb, Option, none, some, arith, if◌then◌else◌, Bool-cases,
  Result, ok, err, is_some, not,
}
use gavel.Market.Defs.{Copper}
use gavel.Market.Engine.Defs.{Buckets, len, rank_of, Distribution, distribution_of}
use gavel.Market.Engine.Place.{
  Valuation, of_rank, Insufficient, Gates, admit_coverage, admit, admits_median, valuation_by,
  insufficient_by, position_with, position_of,
}

abbrev pub Covers : Gates → Option ℕ → Type 0
Covers g none = Unit
Covers g (some c) = g.coverage ≤ c

-- What stands behind a valuation that is shown.
abbrev pub Evidence : Copper → Buckets → Option ℕ → Gates → Option ℕ → Option Valuation → Type 0
Evidence price b coverage g rank none = Unit
Evidence price b coverage g none (some v) = ⊥
Evidence price b coverage g (some r) (some v) =
    (v ≡ of_rank r)
    × (rank_of b price ≡ some r)
    × (g.tails ≤ len b % 4294967296)
    × (g.median ≤ len b % 4294967296)
    × Covers g coverage

admit_coverage-ok :
    (g : Gates) (coverage : Option ℕ) (u : Unit {0})
    → admit_coverage g coverage ≡ ok u
    → Covers g coverage
admit_coverage-ok g none u e = tt
admit_coverage-ok g (some c) u e = ground arith

admit-ok :
    (g : Gates) (held : ℕ) (coverage : Option ℕ) (u : Unit {0})
    → admit g held coverage ≡ ok u
    → (g.tails ≤ held) × Covers g coverage
unfolding admit
admit-ok g held coverage u e = elim (Bool-cases (ltb held g.tails)) [
  | inl h ↦ absurd (ground (arith, e))
  | inr h ↦
      let e' : admit_coverage g coverage ≡ ok u = rw h at e in
      (ground arith, admit_coverage-ok g coverage u e')
]

module _ (price : Copper) (b : Buckets) (coverage : Option ℕ) (g : Gates) where
  abbrev held : ℕ
  held = len b % 4294967296

  abbrev gated_rank : Option ℕ
  gated_rank = if admits_median g held then rank_of b price else none

  gated_rank-some : (r : ℕ) → gated_rank ≡ some r → (rank_of b price ≡ some r) × (g.median ≤ held)
  gated_rank-some r e = elim (Bool-cases (admits_median g held)) [
    | inl h ↦ let e' : rank_of b price ≡ some r = rw h at e in (e', ground arith)
    | inr h ↦ let e' : none ≡ some r = rw h at e in absurd (ground arith)
  ]

  by_gate :
      (admitted : Result Insufficient (Unit {0})) (rank : Option ℕ)
      → admit g held coverage ≡ admitted
      → gated_rank ≡ rank
      → (is_some (valuation_by admitted rank)
          ≡ not (is_some (insufficient_by g held admitted rank)))
        × Evidence price b coverage g rank (valuation_by admitted rank)
  by_gate (ok u) (some r) a e =
      let (tails, covers) = admit-ok g held coverage u a in
      let (ranked, median) = gated_rank-some r e in (refl, (refl, ranked, tails, median, covers))
  by_gate (ok u) none a e = (refl, tt)
  by_gate (err reason) rank a e = (refl, tt)

-- A position shows a valuation or a reason why there is none, and never both. Where it shows a
-- valuation it shows the rank, which is that of the price in the buckets, the valuation is the band
-- of that rank, the buckets are enough for a median and for the tails, and the coverage, if there is
-- one, is enough.
pub position_of-Evidence :
    (price : Copper) (b : Buckets) (coverage : Option ℕ) (g : Gates)
    → let p = position_of price b coverage g in
      (is_some p.valuation ≡ not (is_some p.insufficient))
      × Evidence price b coverage g p.rank p.valuation
unfolding position_of
position_of-Evidence price b coverage g = by_distribution (distribution_of b)
  where
    by_distribution :
        (d : Option Distribution)
        → let p = position_with d price b coverage g in
          (is_some p.valuation ≡ not (is_some p.insufficient))
          × Evidence price b coverage g p.rank p.valuation
    by_distribution none = (refl, tt)
    by_distribution (some d) =
        by_gate price b coverage g (admit g (len b % 4294967296) coverage)
          (gated_rank price b coverage g) refl refl
