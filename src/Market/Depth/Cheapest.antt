-- ===== src/Market/Depth/Cheapest.antt =====
-- crates/app-core/src/market/depth.rs, `Ladder::fill`: no purchase is cheaper than the sweep.
use gavel.Shared.{
  ℕ, zero, ◌+◌, ◌-◌, ◌*◌, ◌≤◌, ◌≡◌, refl, ap, ◌∙◌, inl, inr, List, [], ◌∷◌, arith, min, leb,
  Bool-cases, u64_max, u64_add,
}
use gavel.Shared.BTreeMap.{BTreeMap, Above, IsSorted}
use gavel.Market.Defs.{Copper, Listing}
use gavel.Market.Depth.Defs.{Step, steps_of, group, ladder_of, cheapest}
use gavel.Market.Depth.Upto.{supply, any_price, group-IsSorted, stock, stock-ladder_of}
use gavel.Market.Depth.Fill.{Sweep, take_step, sweep, fill, or_zero}

-- The steps go from cheap to dear, from a price on.
abbrev pub Ascends : Copper → List Step → Type 0
Ascends from [] = Unit {0}
Ascends from (s ∷ ss) = (from ≤ s.price) × Ascends s.price ss

-- A purchase: how many units are taken of each step, no more than it has.
abbrev pub Takes : List ℕ → List Step → Type 0
Takes [] [] = Unit {0}
Takes [] (s ∷ ss) = ⊥
Takes (t ∷ ts) [] = ⊥
Takes (t ∷ ts) (s ∷ ss) = (t ≤ s.quantity) × Takes ts ss

abbrev pub count_of : List ℕ → ℕ
count_of [] = 0
count_of (t ∷ ts) = t + count_of ts

abbrev pub price_of : List ℕ → List Step → ℕ
price_of [] ss = 0
price_of (t ∷ ts) [] = 0
price_of (t ∷ ts) (s ∷ ss) = t * s.price + price_of ts ss

abbrev pub stocked : List Step → ℕ
stocked = stock any_price

-- The purchase that goes along the steps: what it takes of each, and what that costs.
greedy : ℕ → List Step → List ℕ
greedy n [] = []
greedy n (s ∷ ss) = min s.quantity n ∷ greedy (n - min s.quantity n) ss

greedy-Takes : (n : ℕ) (ss : List Step) → Takes (greedy n ss) ss
unfolding greedy
greedy-Takes n [] = tt
greedy-Takes n (s ∷ ss) = (omega arith, greedy-Takes (n - min s.quantity n) ss)

count_of-greedy : (n : ℕ) (ss : List Step) → count_of (greedy n ss) ≡ min n (stocked ss)
unfolding greedy
count_of-greedy n [] = omega arith
count_of-greedy n (s ∷ ss) = omega (arith, count_of-greedy (n - min s.quantity n) ss)

price_of-greedy-zero : (ss : List Step) → price_of (greedy zero ss) ss ≡ 0
unfolding greedy
price_of-greedy-zero [] = refl
price_of-greedy-zero (s ∷ ss) =
    let none_left : min s.quantity 0 ≡ 0 = omega arith in
    rw none_left (omega (arith, price_of-greedy-zero ss))

exchange :
    (k x t y from p g c : ℕ)
    → k + x ≡ t + y
    → from ≤ p
    → g + y * p ≤ c
    → k * p + g + x * from ≤ t * p + c
exchange k x t y from p g c e h l = grind (arith, ap (λ (n : ℕ). n * p) e)

-- A purchase with units to spare, each worth the cheapest price at least, costs no less.
greedy_least :
    (from m : ℕ) (ts : List ℕ) (ss : List Step)
    → Ascends from ss
    → Takes ts ss
    → m ≤ count_of ts
    → price_of (greedy m ss) ss + (count_of ts - m) * from ≤ price_of ts ss
unfolding greedy
greedy_least from m [] [] a h le =
    let none_left : 0 - m ≡ 0 = omega arith in rw none_left (omega arith)
greedy_least from m [] (s ∷ ss) a h le = absurd h
greedy_least from m (t ∷ ts) [] a h le = absurd h
greedy_least from m (t ∷ ts) (s ∷ ss) a h le =
    let k = min s.quantity m in
    exchange k ((t + count_of ts) - m) t (count_of ts - (m - k)) from s.price
      (price_of (greedy (m - k) ss) ss) (price_of ts ss) (omega arith) a.0
      (greedy_least s.price (m - k) ts ss a.1 h.1 (omega arith))

-- The loop follows the purchase along the steps.
sweep-greedy :
    (wanted : ℕ) (ss : List Step) (w : Sweep)
    → ((sweep wanted ss w).filled ≡ w.filled + min (wanted - w.filled) (stocked ss))
      × ((sweep wanted ss w).cost ≡ w.cost + price_of (greedy (wanted - w.filled) ss) ss)
unfolding sweep take_step greedy
sweep-greedy wanted [] w = omega arith
sweep-greedy wanted (s ∷ ss) w = elim (Bool-cases (leb wanted w.filled)) [
  | inl enough ↦
      let left : wanted - w.filled ≡ 0 = ground arith in
      rw (enough, sweep, left) (omega arith, omega (arith, price_of-greedy-zero (s ∷ ss)))
  | inr more ↦
      let n = wanted - w.filled in
      let k = min s.quantity n in
      let (f, c) = sweep-greedy wanted ss (take_step wanted s w) in
      let left : wanted - (w.filled + k) ≡ n - k = omega arith in
      rw (more, sweep)
        (
          f ∙ omega arith,
          c ∙ ap (λ (i : ℕ). w.cost + k * s.price + price_of (greedy i ss) ss) left ∙ omega arith,
        )
]

Ascends-steps_of : (b c : ℕ) (m : BTreeMap ℕ) → Above b m → Ascends b (steps_of c m)
unfolding steps_of
Ascends-steps_of b c [] a = tt
Ascends-steps_of b c ((j, q) ∷ m) a = (omega arith, Ascends-steps_of j (u64_add c q) m a.1)

Ascends-ladder_of : (ls : List Listing) → Ascends 0 (ladder_of ls).steps
unfolding ladder_of steps_of
Ascends-ladder_of ls = from_first (group ls []) (group-IsSorted ls [] tt)
  where
    from_first : (m : BTreeMap ℕ) → IsSorted m → Ascends 0 (steps_of 0 m)
    from_first [] s = tt
    from_first ((j, q) ∷ m) s = (omega arith, Ascends-steps_of j (u64_add 0 q) m s)

-- A purchase of more than there is takes all there is.
greedy_capped : (n : ℕ) (ss : List Step) → greedy n ss ≡ greedy (min n (stocked ss)) ss
unfolding greedy
greedy_capped n [] = refl
greedy_capped n (s ∷ ss) =
    let k = min s.quantity n in
    let k' = min s.quantity (min n (s.quantity + stocked ss)) in
    let same : k ≡ k' = omega arith in
    let rest : min (n - k) (stocked ss) ≡ min n (s.quantity + stocked ss) - k' = omega arith in
    let tail = greedy_capped (n - k) ss ∙ ap (λ i. greedy i ss) rest in λ i. same i ∷ tail i

-- A sweep of a ladder of listings takes the units that are wanted, or all there are; it costs what
-- some purchase of that many units costs, up to the greatest u64; and no purchase of that many units
-- costs less.
pub fill_least :
    (ls : List Listing) (wanted : ℕ) (ts : List ℕ)
    → supply any_price ls ≤ u64_max
    → Takes ts (ladder_of ls).steps
    → count_of ts ≡ (fill (ladder_of ls) wanted).filled
    → ((fill (ladder_of ls) wanted).filled ≡ min wanted (supply any_price ls))
      × ((fill (ladder_of ls) wanted).total_cost ≤ price_of ts (ladder_of ls).steps)
      × ((best : List ℕ) × Takes best (ladder_of ls).steps
          × (count_of best ≡ (fill (ladder_of ls) wanted).filled)
          × ((fill (ladder_of ls) wanted).total_cost
              ≡ min (price_of best (ladder_of ls).steps) u64_max))
unfolding fill
fill_least ls wanted ts fits takes same =
    let ss = (ladder_of ls).steps in
    let w : Sweep = record { filled = 0; cost = 0; clearing = or_zero (cheapest (ladder_of ls)) } in
    let (f, c) = sweep-greedy wanted ss w in
    let all = stock-ladder_of any_price ls fits in
    let n = min wanted (stocked ss) in
    let zero_less : wanted - 0 ≡ wanted = omega arith in
    let cost = c ∙ ap (λ i. 0 + price_of (greedy i ss) ss) zero_less in
    let capped : price_of (greedy wanted ss) ss ≡ price_of (greedy n ss) ss =
      ap (λ b. price_of b ss) (greedy_capped wanted ss) in
    let count = count_of-greedy wanted ss in
    let least = greedy_least 0 n ts ss (Ascends-ladder_of ls) takes (omega arith) in
    (omega arith, omega arith, (greedy wanted ss, greedy-Takes wanted ss, omega arith, omega arith))
