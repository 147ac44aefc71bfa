-- ===== src/Market/Latest.antt =====
-- crates/app-core/src/market/engine.rs: the last observation of a stretch of time, which `Buckets` and
-- `Spark` both keep.
use gavel.Shared.{
  ◌≤◌, ◌≡◌, refl, subst, ◌⊎◌, inl, inr, Bool, true, false, ltb, Option, none, some, List, [], ◌∷◌,
  arith, if◌then◌else◌, Bool-cases, All,
}
use gavel.Time.{Millis}
use gavel.Market.Defs.{Copper}

-- What is kept of the observations of a stretch of time: the last one wins.
abbrev pub hold : Option (Millis × Copper) → Millis → Copper → Option (Millis × Copper)
hold none at price = some (at, price)
hold (some (t, p)) at price = if ltb at t then some (t, p) else some (at, price)

abbrev pub price_of : Option (Millis × Copper) → Option Copper
price_of none = none
price_of (some (t, p)) = some p

-- By the test of what falls in the stretch.
module _ (falls : Millis → Bool) where
  -- The observations of a slot, folded.
  abbrev pub latest : Option (Millis × Copper) → List (Millis × Copper) → Option (Millis × Copper)
  latest held [] = held
  latest held ((at, price) ∷ rest) = latest (if falls at then hold held at price else held) rest

  -- An observation is in the list.
  abbrev pub Seen : Millis → Copper → List (Millis × Copper) → Type 0
  Seen at price [] = ⊥
  Seen at price ((t, p) ∷ seen) = ((t ≡ at) × (p ≡ price)) ⊎ Seen at price seen

  -- No observation of the slot is later than `t`.
  abbrev pub NoneLater : Millis → List (Millis × Copper) → Type 0
  NoneLater t seen = All (λ o. falls o.0 ≡ true → o.0 ≤ t) seen

  -- What a slot shows of the observations: none of them falls in it, or it has the price of the last.
  abbrev pub Shows : List (Millis × Copper) → Option Copper → Type 0
  Shows seen none = All (λ o. falls o.0 ≡ false) seen
  Shows seen (some price) =
      (at : Millis) × Seen at price seen × (falls at ≡ true) × NoneLater at seen

  -- The same where `held` is what the slot had before.
  abbrev pub Keeps :
      Option (Millis × Copper) → List (Millis × Copper) → Option (Millis × Copper) → Type 0
  Keeps none seen none = All (λ o. falls o.0 ≡ false) seen
  Keeps (some (t, p)) seen none = ⊥
  Keeps none seen (some (at, price)) = Seen at price seen × (falls at ≡ true) × NoneLater at seen
  Keeps (some (t, p)) seen (some (at, price)) =
      (((t ≡ at) × (p ≡ price)) ⊎ (Seen at price seen × (falls at ≡ true)))
      × (t ≤ at)
      × NoneLater at seen

  module _ (at : Millis) (price : Copper) (seen : List (Millis × Copper)) where
    Keeps-other :
        (held r : Option (Millis × Copper))
        → falls at ≡ false
        → Keeps held seen r
        → Keeps held ((at, price) ∷ seen) r
    Keeps-other none none e k = (e, k)
    Keeps-other (some (t, p)) none e k = absurd k
    Keeps-other none (some (t, p)) e k = (inr k.0, k.1, ((λ h. absurd (ground arith)), k.2))
    Keeps-other (some (t, p)) (some (u, q)) e k = ground arith

    Keeps-first :
        (r : Option (Millis × Copper))
        → falls at ≡ true
        → Keeps (some (at, price)) seen r
        → Keeps none ((at, price) ∷ seen) r
    Keeps-first none e k = absurd k
    Keeps-first (some (u, q)) e k = (seen_one k.0, falls_one k.0, ((λ _. k.1), k.2))
      where
        seen_one :
            ((at ≡ u) × (price ≡ q)) ⊎ (Seen u q seen × (falls u ≡ true))
            → ((at ≡ u) × (price ≡ q)) ⊎ Seen u q seen
        seen_one (inl h) = inl h
        seen_one (inr h) = inr h.0

        falls_one : ((at ≡ u) × (price ≡ q)) ⊎ (Seen u q seen × (falls u ≡ true)) → falls u ≡ true
        falls_one (inl h) = subst (λ v. falls v ≡ true) h.0 e
        falls_one (inr h) = h.1

    Keeps-next :
        (t : Millis) (p : Copper) (r : Option (Millis × Copper))
        → falls at ≡ true
        → Keeps (hold (some (t, p)) at price) seen r
        → Keeps (some (t, p)) ((at, price) ∷ seen) r
    Keeps-next t p none e k = absurd (elim (Bool-cases (ltb at t)) [
      | inl h ↦ let k' : Keeps (some (t, p)) seen none = rw h at k in k'
      | inr h ↦ let k' : Keeps (some (at, price)) seen none = rw h at k in k'
    ])
    Keeps-next t p (some (u, q)) e k = elim (Bool-cases (ltb at t)) [
      | inl h ↦
          let k' : Keeps (some (t, p)) seen (some (u, q)) = rw h at k in
          (
            elim k'.0 [ inl o ↦ inl o | inr o ↦ inr (inr o.0, o.1) ],
            k'.1,
            ((λ _. ground arith), k'.2),
          )
      | inr h ↦
          let k' : Keeps (some (at, price)) seen (some (u, q)) = rw h at k in
          let f : Keeps none ((at, price) ∷ seen) (some (u, q)) = Keeps-first (some (u, q)) e k' in
          (inr (f.0, f.1), ground arith, f.2)
    ]

  module _ (at : Millis) (price : Copper) (seen : List (Millis × Copper)) where
    Keeps-held :
        (held : Option (Millis × Copper))
        → falls at ≡ true
        → ((h : Option (Millis × Copper)) → Keeps h seen (latest h seen))
        → Keeps held ((at, price) ∷ seen) (latest (hold held at price) seen)
    Keeps-held none e k =
        Keeps-first at price seen (latest (some (at, price)) seen) e (k (some (at, price)))
    Keeps-held (some (t, p)) e k =
        Keeps-next at price seen t p (latest (hold (some (t, p)) at price) seen) e
          (k (hold (some (t, p)) at price))

  pub latest_lem :
      (held : Option (Millis × Copper)) (seen : List (Millis × Copper))
      → Keeps held seen (latest held seen)
  latest_lem none [] = tt
  latest_lem (some (t, p)) [] = (inl (refl, refl), omega arith, tt)
  latest_lem held ((at, price) ∷ seen) = elim (Bool-cases (falls at)) [
    | inl e ↦ rw e (Keeps-held at price seen held e (λ h. latest_lem h seen))
    | inr e ↦ rw e (Keeps-other at price seen held (latest held seen) e (latest_lem held seen))
  ]

  pub Keeps-Shows :
      (seen : List (Millis × Copper)) (r : Option (Millis × Copper))
      → Keeps none seen r
      → Shows seen (price_of r)
  Keeps-Shows seen none k = k
  Keeps-Shows seen (some (at, price)) k = (at, k.0, k.1, k.2)
