-- ===== src/Market/Depth/Merged.antt =====
-- crates/app-core/src/market/depth.rs, `Ladder::merged`: a shelf of several ladders.
use gavel.Shared.{ℕ, ◌+◌, ◌≤◌, ◌≡◌, ◌∙◌, Bool, List, [], ◌∷◌, map, arith, leb, u64_max}
use gavel.Shared.BTreeMap.{BTreeMap, IsSorted}
use gavel.Market.Defs.{Copper, Listing}
use gavel.Market.Depth.Defs.{Step, add_at, ladder_of, pool, pool_all, merged, quantity_upto}
use gavel.Market.Depth.Upto.{
  supply, any_price, held, held-add_at, add_at-IsSorted, quantity_upto-steps_of, stock,
  stock-ladder_of,
}

pool-IsSorted : (ss : List Step) (m : BTreeMap ℕ) → IsSorted m → IsSorted (pool ss m)
unfolding pool
pool-IsSorted [] m s = s
pool-IsSorted (p ∷ ss) m s =
    pool-IsSorted ss (add_at p.price p.quantity m) (add_at-IsSorted p.price p.quantity m s)

held-pool :
    (f : Copper → Bool) (ss : List Step) (m : BTreeMap ℕ)
    → IsSorted m
    → held any_price m + stock any_price ss ≤ u64_max
    → held f (pool ss m) ≡ held f m + stock f ss
unfolding pool
held-pool f [] m s fits = omega arith
held-pool f (p ∷ ss) m s fits =
    let all = held-add_at any_price p.price p.quantity m s (omega arith) in
    let one = held-add_at f p.price p.quantity m s (omega arith) in
    held-pool f ss (add_at p.price p.quantity m) (add_at-IsSorted p.price p.quantity m s)
      (omega arith)
    ∙ ground arith

-- The listings of several shelves.
abbrev pub supply_of_all : (Copper → Bool) → List (List Listing) → ℕ
supply_of_all f [] = 0
supply_of_all f (ls ∷ lss) = supply f ls + supply_of_all f lss

held-pool_all :
    (f : Copper → Bool) (lss : List (List Listing)) (m : BTreeMap ℕ)
    → IsSorted m
    → held any_price m + supply_of_all any_price lss ≤ u64_max
    → IsSorted (pool_all (map ladder_of lss) m)
      × (held f (pool_all (map ladder_of lss) m) ≡ held f m + supply_of_all f lss)
unfolding pool_all
held-pool_all f [] m s fits = (s, omega arith)
held-pool_all f (ls ∷ lss) m s fits =
    let ss = (ladder_of ls).steps in
    let fits' : supply any_price ls ≤ u64_max = omega arith in
    let all = held-pool any_price ss m s (omega (arith, stock-ladder_of any_price ls fits')) in
    let one = held-pool f ss m s (omega (arith, stock-ladder_of any_price ls fits')) in
    let (sorted, later) =
      held-pool_all f lss (pool ss m) (pool-IsSorted ss m s)
        (omega (arith, stock-ladder_of any_price ls fits')) in
    (sorted, later ∙ omega (arith, stock-ladder_of f ls fits'))

-- A ladder merged from ladders offers, up to any price, what all their listings offer up to it.
pub quantity_upto-merged :
    (lss : List (List Listing)) (price : Copper)
    → supply_of_all any_price lss ≤ u64_max
    → quantity_upto (merged (map ladder_of lss)) price ≡ supply_of_all (λ p. leb p price) lss
unfolding merged
quantity_upto-merged lss price fits =
    let (sorted, all) = held-pool_all any_price lss [] tt (omega arith) in
    let (_, one) = held-pool_all (λ p. leb p price) lss [] tt (omega arith) in
    quantity_upto-steps_of (pool_all (map ladder_of lss) []) price sorted (omega arith)
    ∙ one
    ∙ omega arith
