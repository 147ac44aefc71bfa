-- ===== src/Market/Depth/Upto.antt =====
-- crates/app-core/src/market/depth.rs: a ladder offers what its listings offer.
use gavel.Shared.{
  ℕ, zero, suc, ◌+◌, ◌-◌, ◌≤◌, ◌≡◌, refl, ◌∙◌, inl, inr, Bool, true, false, none, List, [], ◌∷◌,
  arith, ◌==◌, leb, if◌then◌else◌, get_elem?, u64_max, u64_add, Bool-cases,
}
use gavel.Shared.BTreeMap.{BTreeMap, get, insert, Above, IsSorted, insert-IsSorted}
use gavel.Market.Defs.{Copper, Listing}
use gavel.Market.Depth.Defs.{
  Step, or_default, add_at, group, steps_of, ladder_of, partition_point, cumulative_at,
  quantity_upto, total, last_cumulative,
}

-- The units of the listings whose price passes a test.
abbrev pub supply : (Copper → Bool) → List Listing → ℕ
supply f [] = 0
supply f (l ∷ ls) = (if f l.unit_price then l.quantity else 0) + supply f ls

abbrev pub any_price : Copper → Bool
any_price price = true

-- The units of a map at the prices that pass a test.
abbrev pub held : (Copper → Bool) → BTreeMap ℕ → ℕ
held f [] = 0
held f ((p, q) ∷ m) = (if f p then q else 0) + held f m

get-below : (b k : ℕ) (m : BTreeMap ℕ) → k ≤ b → Above b m → get k m ≡ none
unfolding get
get-below b k [] h a = refl
get-below b k ((j, w) ∷ m) h a = ground (arith, get-below j k m)

Above-IsSorted : (b : ℕ) (m : BTreeMap ℕ) → Above b m → IsSorted m
Above-IsSorted b [] a = tt
Above-IsSorted b ((j, w) ∷ m) a = a.1

held-insert :
    (f : Copper → Bool) (k v : ℕ) (m : BTreeMap ℕ)
    → IsSorted m
    → held f (insert k v m) + (if f k then or_default (get k m) else 0)
      ≡ held f m + (if f k then v else 0)
unfolding insert get
held-insert f k v [] s = ground arith
held-insert f k v ((j, w) ∷ m) s =
    ground (arith, held-insert f k v m (Above-IsSorted j m s), get-below j k m)

get-le-held : (k : ℕ) (m : BTreeMap ℕ) → or_default (get k m) ≤ held any_price m
unfolding get
get-le-held k [] = omega arith
get-le-held k ((j, w) ∷ m) = ground (arith, get-le-held k m)

held-le : (f : Copper → Bool) (m : BTreeMap ℕ) → held f m ≤ held any_price m
held-le f [] = omega arith
held-le f ((j, w) ∷ m) = ground (arith, held-le f m)

pub held-add_at :
    (f : Copper → Bool) (k q : ℕ) (m : BTreeMap ℕ)
    → IsSorted m
    → held any_price m + q ≤ u64_max
    → held f (add_at k q m) ≡ held f m + (if f k then q else 0)
unfolding add_at
held-add_at f k q m s fits =
    let exact : u64_add (or_default (get k m)) q ≡ or_default (get k m) + q =
      omega (arith, get-le-held k m) in
    rw exact (ground (arith, held-insert f k (or_default (get k m) + q) m s))

pub add_at-IsSorted : (k q : ℕ) (m : BTreeMap ℕ) → IsSorted m → IsSorted (add_at k q m)
unfolding add_at
add_at-IsSorted k q m s = insert-IsSorted k (u64_add (or_default (get k m)) q) m s

pub group-IsSorted : (ls : List Listing) (m : BTreeMap ℕ) → IsSorted m → IsSorted (group ls m)
unfolding group
group-IsSorted [] m s = s
group-IsSorted (l ∷ ls) m s = elim (Bool-cases (l.quantity == 0)) [
  | inl e ↦ rw (e, group) (group-IsSorted ls m s)
  | inr e ↦
      rw (e, group)
        (group-IsSorted ls (add_at l.unit_price l.quantity m)
          (add_at-IsSorted l.unit_price l.quantity m s))
]

held-group :
    (f : Copper → Bool) (ls : List Listing) (m : BTreeMap ℕ)
    → IsSorted m
    → held any_price m + supply any_price ls ≤ u64_max
    → held f (group ls m) ≡ held f m + supply f ls
unfolding group
held-group f [] m s fits = omega arith
held-group f (l ∷ ls) m s fits = elim (Bool-cases (l.quantity == 0)) [
  | inl e ↦ rw (e, group) (ground (arith, held-group f ls m s))
  | inr e ↦
      let m' = add_at l.unit_price l.quantity m in
      let all = held-add_at any_price l.unit_price l.quantity m s (omega arith) in
      let one = held-add_at f l.unit_price l.quantity m s (omega arith) in
      rw (e, group)
        (held-group f ls m' (add_at-IsSorted l.unit_price l.quantity m s) (omega arith)
          ∙ ground arith)
]

-- The cumulative units at the step before an index, or what came before the steps.
abbrev at_index : ℕ → List Step → ℕ → ℕ
at_index c ss zero = c
at_index c ss (suc i) = cumulative_at (get_elem? ss i)

held-Above : (b price : ℕ) (m : BTreeMap ℕ) → price ≤ b → Above b m → held (λ p. leb p price) m ≡ 0
held-Above b price [] h a = refl
held-Above b price ((j, w) ∷ m) h a = ground (arith, held-Above j price m)

at_index-next :
    (s : Step) (ss : List Step) (k : ℕ)
    → cumulative_at (get_elem? (s ∷ ss) k) ≡ at_index s.cumulative ss k
at_index-next s ss zero = refl
at_index-next s ss (suc k) = refl

at_index-steps_of :
    (c : ℕ) (m : BTreeMap ℕ) (price : ℕ)
    → IsSorted m
    → c + held any_price m ≤ u64_max
    → at_index c (steps_of c m) (partition_point price (steps_of c m))
      ≡ c + held (λ p. leb p price) m
unfolding steps_of partition_point
at_index-steps_of c [] price s fits = omega arith
at_index-steps_of c ((j, w) ∷ m) price s fits = elim (Bool-cases (leb j price)) [
  | inl e ↦
      let step : Step = record { price = j; quantity = w; cumulative = u64_add c w } in
      let exact : u64_add c w ≡ c + w = omega arith in
      let rest = steps_of (u64_add c w) m in
      rw e (
        at_index-next step rest (partition_point price rest)
        ∙ at_index-steps_of (u64_add c w) m price (Above-IsSorted j m s) (omega arith)
        ∙ omega arith)
  | inr e ↦ rw e (omega (arith, held-Above j price m (ground arith) s))
]

read_at :
    (ss : List Step) (k : ℕ)
    → (if k == 0 then 0 else cumulative_at (get_elem? ss (k - 1))) ≡ at_index 0 ss k
read_at ss zero = refl
read_at ss (suc k) =
    let e : suc k - 1 ≡ k = omega arith in
    let n : (suc k == 0) ≡ false = ground arith in rw (n, e) refl

-- What a ladder made of a map offers.
pub quantity_upto-steps_of :
    (m : BTreeMap ℕ) (price : Copper)
    → IsSorted m
    → held any_price m ≤ u64_max
    → quantity_upto (record { steps = steps_of 0 m }) price ≡ held (λ p. leb p price) m
unfolding quantity_upto
quantity_upto-steps_of m price s fits =
    read_at (steps_of 0 m) (partition_point price (steps_of 0 m))
    ∙ at_index-steps_of 0 m price s (omega arith)
    ∙ omega arith

total-steps_of :
    (c : ℕ) (m : BTreeMap ℕ)
    → c + held any_price m ≤ u64_max
    → last_cumulative c (steps_of c m) ≡ c + held any_price m
unfolding steps_of
total-steps_of c [] fits = omega arith
total-steps_of c ((j, w) ∷ m) fits =
    let exact : u64_add c w ≡ c + w = omega arith in
    total-steps_of (u64_add c w) m (omega arith) ∙ omega arith

-- Up to any price, a ladder of listings offers the units of the listings at or below that price,
-- where all of them together fit in a u64.
pub quantity_upto-ladder_of :
    (ls : List Listing) (price : Copper)
    → supply any_price ls ≤ u64_max
    → quantity_upto (ladder_of ls) price ≡ supply (λ p. leb p price) ls
unfolding ladder_of
quantity_upto-ladder_of ls price fits =
    let all = held-group any_price ls [] tt (omega arith) in
    quantity_upto-steps_of (group ls []) price (group-IsSorted ls [] tt) (omega arith)
    ∙ held-group (λ p. leb p price) ls [] tt (omega arith)
    ∙ omega arith

pub total-ladder_of :
    (ls : List Listing) → supply any_price ls ≤ u64_max → total (ladder_of ls) ≡ supply any_price ls
unfolding ladder_of
total-ladder_of ls fits =
    let all = held-group any_price ls [] tt (omega arith) in
    total-steps_of 0 (group ls []) (omega arith) ∙ omega arith

-- The units of the steps whose price passes a test.
abbrev pub stock : (Copper → Bool) → List Step → ℕ
stock f [] = 0
stock f (s ∷ ss) = (if f s.price then s.quantity else 0) + stock f ss

stock-steps_of : (f : Copper → Bool) (c : ℕ) (m : BTreeMap ℕ) → stock f (steps_of c m) ≡ held f m
unfolding steps_of
stock-steps_of f c [] = refl
stock-steps_of f c ((j, w) ∷ m) = omega (arith, stock-steps_of f (u64_add c w) m)

pub stock-ladder_of :
    (f : Copper → Bool) (ls : List Listing)
    → supply any_price ls ≤ u64_max
    → stock f (ladder_of ls).steps ≡ supply f ls
unfolding ladder_of
stock-ladder_of f ls fits =
    stock-steps_of f 0 (group ls []) ∙ held-group f ls [] tt (omega arith) ∙ omega arith
