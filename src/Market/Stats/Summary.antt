-- ===== src/Market/Stats/Summary.antt =====
-- crates/app-core/src/market/stats.rs: what a summary says of the listings, in whatever order.
use gavel.Shared.{
  ℕ, ◌+◌, ◌*◌, ◌≤◌, ◌<◌, ◌≡◌, refl, sym, ap, ◌∙◌, inl, inr, max, Bool, ◌==◌, ltb, leb, Option, none,
  some, List, [], ◌∷◌, arith, Bool-cases, All, u64_add, u64_max, u64_mul, div_ceil,
}
use native.Mathlib.Nat.{mul-le-mul_left, mod-eq_of_lt}
use gavel.Market.Defs.{Copper, Listing}
use gavel.Market.Depth.Upto.{supply, any_price}
use gavel.Market.Stats.Defs.{
  PriceStats, insert_listing, sort_listings, sum_quantities, last_price, consume, quantile_price,
  summarise_sorted, summarise,
}

-- The prices do not go down.
abbrev Climbs : Copper → List Listing → Type 0
Climbs a [] = Unit
Climbs a (l ∷ ls) = (a ≤ l.unit_price) × Climbs l.unit_price ls

Climbs-insert :
    (a : Copper) (l : Listing) (ls : List Listing)
    → a ≤ l.unit_price
    → Climbs a ls
    → Climbs a (insert_listing l ls)
unfolding insert_listing
Climbs-insert a l [] h c = (h, tt)
Climbs-insert a l (m ∷ ls) h c = ground (arith, Climbs-insert m.unit_price l ls)

Climbs-sort : (ls : List Listing) → Climbs 0 (sort_listings ls)
unfolding sort_listings
Climbs-sort [] = tt
Climbs-sort (l ∷ ls) = Climbs-insert 0 l (sort_listings ls) (omega arith) (Climbs-sort ls)

supply-insert :
    (f : Copper → Bool) (l : Listing) (ls : List Listing)
    → supply f (insert_listing l ls) ≡ supply f (l ∷ ls)
unfolding insert_listing
supply-insert f l [] = refl
supply-insert f l (m ∷ ls) = ground (arith, supply-insert f l ls)

supply-sort : (f : Copper → Bool) (ls : List Listing) → supply f (sort_listings ls) ≡ supply f ls
unfolding sort_listings
supply-sort f [] = refl
supply-sort f (l ∷ ls) = omega (arith, supply-insert f l (sort_listings ls), supply-sort f ls)

supply-le : (f : Copper → Bool) (ls : List Listing) → supply f ls ≤ supply any_price ls
supply-le f [] = omega arith
supply-le f (l ∷ ls) = ground (arith, supply-le f ls)

sum_quantities-supply :
    (seen : ℕ) (ls : List Listing)
    → seen + supply any_price ls ≤ u64_max
    → sum_quantities seen ls ≡ seen + supply any_price ls
unfolding sum_quantities
sum_quantities-supply seen [] h = omega arith
sum_quantities-supply seen (l ∷ ls) h =
    let exact : u64_add seen l.quantity ≡ seen + l.quantity = omega arith in
    rw exact (omega (arith, sum_quantities-supply (seen + l.quantity) ls (omega arith)))

-- No listing is below a price that all are above.
supply-below :
    (a p : Copper) (ls : List Listing) → p ≤ a → Climbs a ls → supply (λ q. ltb q p) ls ≡ 0
supply-below a p [] h c = refl
supply-below a p (l ∷ ls) h c =
    ground (arith, supply-below l.unit_price p ls (omega (arith, c.0)) c.1)

-- The price at which so many units of the listings are consumed.
pub record Consumes (ls : List Listing) (target : ℕ) (price : Copper) : Type 0 where
  pub enough : target ≤ supply (λ q. leb q price) ls
  pub not_before : supply (λ q. ltb q price) ls < target

record Reaches (a : Copper) (ls : List Listing) (target seen : ℕ) (price : Copper) : Type 0 where
  from : a ≤ price
  enough : target ≤ seen + supply (λ q. leb q price) ls
  not_before : seen + supply (λ q. ltb q price) ls < target

consume-Reaches :
    (a : Copper) (ls : List Listing) (target seen : ℕ) (after : Copper)
    → Climbs a ls
    → seen < target
    → target ≤ seen + supply any_price ls
    → seen + supply any_price ls ≤ u64_max
    → Reaches a ls target seen (consume target seen ls after)
unfolding consume
consume-Reaches a [] target seen after c h t u = absurd (omega arith)
consume-Reaches a (l ∷ ls) target seen after c h t u =
    let exact : u64_add seen l.quantity ≡ seen + l.quantity = omega arith in
    rw exact (elim (Bool-cases (leb target (seen + l.quantity))) [
      | inl e ↦ rw e (record {
        from = c.0;
        enough = ground arith;
        not_before = ground (arith, supply-below l.unit_price l.unit_price ls (omega arith) c.1);
      })
      | inr e ↦
          let r =
            consume-Reaches l.unit_price ls target (seen + l.quantity) after c.1 (ground arith)
              (omega arith) (omega arith) in
          rw e (record {
            from = omega (arith, c.0, r.from);
            enough = ground (arith, r.from, r.enough);
            not_before = ground (arith, r.from, r.not_before);
          })
    ])

-- How many units the cheapest `percent` of a supply are, at least one.
abbrev pub share : ℕ → ℕ → ℕ
share percent total = max (div_ceil (total * percent) 100) 1

pub record IsSummary (ls : List Listing) (s : PriceStats) : Type 0 where
  pub quantity_eq : s.quantity ≡ supply any_price ls
  pub min_le : All (λ l. s.min ≤ l.unit_price) ls
  pub p05_price : Consumes ls (share 5 (supply any_price ls)) s.p05
  pub median_price : Consumes ls (share 50 (supply any_price ls)) s.median

-- What `summarise` may answer.
abbrev pub Summarises : List Listing → Option PriceStats → Type 0
Summarises ls none = supply any_price ls ≡ 0
Summarises ls (some s) = IsSummary ls s

quantile_price-Consumes :
    (ls : List Listing) (percent : ℕ)
    → Climbs 0 ls
    → 1 ≤ supply any_price ls
    → percent ≤ 100
    → supply any_price ls * 100 ≤ u64_max
    → Consumes ls
        (share percent (supply any_price ls))
        (quantile_price ls (supply any_price ls) percent)
unfolding quantile_price
quantile_price-Consumes ls percent c h p u =
    let total = supply any_price ls in
    let le : total * percent ≤ total * 100 = mul-le-mul_left total p in
    let exact : u64_mul total percent ≡ total * percent = mod-eq_of_lt (omega (arith, le)) in
    let r =
      consume-Reaches 0 ls (share percent total) 0 (last_price 0 ls) c (omega arith)
        (omega (arith, le)) (omega arith) in
    rw exact (record { enough = omega (arith, r.enough); not_before = omega (arith, r.not_before) })

Climbs-All : (a : Copper) (ls : List Listing) → Climbs a ls → All (λ l. a ≤ l.unit_price) ls
Climbs-All a [] c = tt
Climbs-All a (l ∷ ls) c = (c.0, at_least a l.unit_price ls c.0 (Climbs-All l.unit_price ls c.1))
  where
    at_least :
        (a b : Copper) (ls : List Listing)
        → a ≤ b
        → All (λ l. b ≤ l.unit_price) ls
        → All (λ l. a ≤ l.unit_price) ls
    at_least a b [] h all = tt
    at_least a b (l ∷ ls) h all = (omega (arith, all.0), at_least a b ls h all.1)

All-insert :
    (a : Copper) (l : Listing) (ls : List Listing)
    → All (λ m. a ≤ m.unit_price) (insert_listing l ls)
    → All (λ m. a ≤ m.unit_price) (l ∷ ls)
unfolding insert_listing
All-insert a l [] h = h
All-insert a l (m ∷ ls) h = ground (arith, All-insert a l ls)

All-sort :
    (a : Copper) (ls : List Listing)
    → All (λ m. a ≤ m.unit_price) (sort_listings ls)
    → All (λ m. a ≤ m.unit_price) ls
unfolding sort_listings
All-sort a [] h = tt
All-sort a (l ∷ ls) h =
    let (first, rest) = All-insert a l (sort_listings ls) h in (first, All-sort a ls rest)

sorted-Summarises :
    (ls : List Listing)
    → Climbs 0 ls
    → supply any_price ls * 100 ≤ u64_max
    → Summarises ls (summarise_sorted ls)
sorted-Summarises [] c u = refl
sorted-Summarises (l ∷ ls) c u =
    let total : sum_quantities 0 (l ∷ ls) ≡ supply any_price (l ∷ ls) =
      omega (arith, sum_quantities-supply 0 (l ∷ ls) (omega arith)) in
    rw total (elim (Bool-cases (supply any_price (l ∷ ls) == 0)) [
      | inl e ↦ rw e (ground arith)
      | inr e ↦ rw e (record {
        quantity_eq = refl;
        min_le = (omega arith, Climbs-All l.unit_price ls c.1);
        p05_price = quantile_price-Consumes (l ∷ ls) 5 c (ground arith) (omega arith) u;
        median_price = quantile_price-Consumes (l ∷ ls) 50 c (ground arith) (omega arith) u;
      })
    ])

-- Of listings with at most 2^64 / 100 units `summarise` answers none exactly where there are no
-- units, and otherwise the number of the units, a price that no listing is below, and the prices at
-- which the cheapest 5% and 50% of the units are consumed: so many are offered up to that price, and
-- fewer below it. The order of the listings does not matter.
pub summarise-Summarises :
    (ls : List Listing) → supply any_price ls * 100 ≤ u64_max → Summarises ls (summarise ls)
unfolding summarise
summarise-Summarises ls u = unsorted (summarise_sorted (sort_listings ls)) (
    sorted-Summarises (sort_listings ls) (Climbs-sort ls) (omega (arith, supply-sort any_price ls)))
  where
    unsorted_price :
        (percent : ℕ) (price : Copper)
        → Consumes (sort_listings ls) (share percent (supply any_price (sort_listings ls))) price
        → Consumes ls (share percent (supply any_price ls)) price
    unsorted_price percent price r = record {
      enough = omega (
        arith,
        r.enough,
        supply-sort (λ q. leb q price) ls,
        ap (share percent) (supply-sort any_price ls),
      );
      not_before = omega (
        arith,
        r.not_before,
        supply-sort (λ q. ltb q price) ls,
        ap (share percent) (supply-sort any_price ls),
      );
    }

    unsorted : (s : Option PriceStats) → Summarises (sort_listings ls) s → Summarises ls s
    unsorted none e = sym (supply-sort any_price ls) ∙ e
    unsorted (some s) r = record {
      quantity_eq = r.quantity_eq ∙ supply-sort any_price ls;
      min_le = All-sort s.min ls r.min_le;
      p05_price = unsorted_price 5 s.p05 r.p05_price;
      median_price = unsorted_price 50 s.median r.median_price;
    }
