-- ===== src/Scheduler/Choice.antt =====
-- crates/cluster-core/src/scheduler.rs and coordinator.rs: which node is chosen.
use gavel.Shared.{
  ℕ, ◌≡◌, refl, inl, inr, Bool, true, false, Option, none, some, List, [], ◌∷◌, Result, ok, err,
  arith, subst, All, In, filter, filter-In, filter-All, get_elem?, get_elem?-lt, get_elem?-In,
  length, ◌==◌, Bool-cases, ◌<◌, ◌%◌,
}
use gavel.Job.Machine.{Task}
use gavel.Node.Defs.{Node, is_schedulable, accepts_work}
use gavel.Scheduler.Defs.{
  SchedulerError, no_eligible_node, schedulable, min_from, min_by, load_less, id_or_none,
  least_loaded, round_robin, id_less, id_of, elect,
}

module _ {A : Type 0} (less : A → A → Bool)
    (trans : (a b c : A) → less a b ≡ true → less b c ≡ true → less a c ≡ true) where
  -- The result is the first element or a later one, and nothing that was seen is less.
  min_from-In : (best : A) (xs : List A) → In (min_from less best xs) (best ∷ xs)
  unfolding min_from
  min_from-In best [] = inl refl
  min_from-In best (x ∷ xs) = ground (arith, min_from-In best xs, min_from-In x xs)

  min_from-le :
      (y best : A) (xs : List A) → less y best ≡ false → less y (min_from less best xs) ≡ false
  unfolding min_from
  min_from-le y best [] h = h
  min_from-le y best (x ∷ xs) h =
      ground (arith, min_from-le y best xs, min_from-le y x xs, trans y x best)

  min_from-All :
      ((a : A) → less a a ≡ false)
      → (best m : A) (xs : List A) → min_from less best xs ≡ m
      → All (λ y. less y m ≡ false) xs
  unfolding min_from
  min_from-All irr best m [] e = tt
  min_from-All irr best m (x ∷ xs) e = elim (Bool-cases (less x best)) [
    | inl h ↦
        let e' : min_from less x xs ≡ m = rw h at e in
        (subst (λ z. less x z ≡ false) e' (min_from-le x x xs (irr x)), min_from-All irr x m xs e')
    | inr h ↦
        let e' : min_from less best xs ≡ m = rw h at e in
        (subst (λ z. less x z ≡ false) e' (min_from-le x best xs h), min_from-All irr best m xs e')
  ]

  -- `min_by` finds nothing in the empty list only, and elsewhere an element that none is less than.
  abbrev pub Least : List A → Option A → Type 0
  Least xs none = xs ≡ []
  Least xs (some m) = In m xs × All (λ y. less y m ≡ false) xs

  min_by-Least : ((a : A) → less a a ≡ false) → (xs : List A) → Least xs (min_by less xs)
  unfolding min_by
  min_by-Least irr [] = refl
  min_by-Least irr (x ∷ xs) =
      (min_from-In x xs, (min_from-le x x xs (irr x), min_from-All irr x _ xs refl))

load_less_trans :
    (a b c : Node) → load_less a b ≡ true → load_less b c ≡ true → load_less a c ≡ true
unfolding load_less
load_less_trans a b c p q = ground arith

load_less_irrefl : (a : Node) → load_less a a ≡ false
unfolding load_less
load_less_irrefl a = ground arith

-- What a scheduler may answer: a refusal if no node is eligible, or the id of an eligible node.
abbrev pub Places : List Node → Result SchedulerError ℕ → (Node → Type 0) → Type 0
Places nodes (err e) P = schedulable nodes ≡ []
Places nodes (ok id) P = (n : Node) × In n nodes × (is_schedulable n ≡ true) × (n.id ≡ id) × P n

-- `LeastLoaded` refuses only where no node is healthy with the Compute role; otherwise it chooses
-- such a node, and no such node comes before it by (running tasks, load, capacity descending, id).
pub least_loaded-Places :
    (task : Task) (nodes : List Node)
    → Places nodes
        (least_loaded task nodes)
        (λ n. All (λ m. is_schedulable m ≡ true → load_less m n ≡ false) nodes)
unfolding least_loaded schedulable
least_loaded-Places task nodes =
    go (min_by load_less (schedulable nodes))
      (min_by-Least load_less load_less_trans load_less_irrefl (schedulable nodes))
  where
    go :
        (o : Option Node)
        → Least load_less load_less_trans (schedulable nodes) o
        → Places nodes
            (id_or_none o)
            (λ n. All (λ m. is_schedulable m ≡ true → load_less m n ≡ false) nodes)
    go none e = e
    go (some n) (m, a) = (
      n,
      (filter-In is_schedulable n nodes m).0,
      (filter-In is_schedulable n nodes m).1,
      refl,
      filter-All _ is_schedulable nodes a,
    )

slot_lt : (k n : ℕ) → (n == 0) ≡ false → k % n < n
slot_lt k n h = ground arith

-- `RoundRobin` never indexes out of range: it answers, with a refusal only where no node is
-- eligible, and otherwise with the id of an eligible node.
pub round_robin-Places :
    (task : Task) (nodes : List Node)
    → (r : Result SchedulerError ℕ) × (round_robin task nodes ≡ some r)
      × Places nodes r
          (λ n. get_elem? (schedulable nodes) (task.id % length (schedulable nodes)) ≡ some n)
unfolding round_robin schedulable
round_robin-Places task nodes = elim (Bool-cases (length eligible == 0)) [
  | inl e ↦ (err no_eligible_node, rw e, empty eligible e)
  | inr e ↦
      found e
        (get_elem?-lt eligible (task.id % length eligible) (slot_lt task.id (length eligible) e))
]
  where
    eligible : List Node
    eligible = filter is_schedulable nodes

    empty : (xs : List Node) → (length xs == 0) ≡ true → xs ≡ []
    empty [] h = refl
    empty (x ∷ xs) h = absurd (ground arith)

    found :
        (length eligible == 0) ≡ false
        → (n : Node) × (get_elem? eligible (task.id % length eligible) ≡ some n)
        → (r : Result SchedulerError ℕ) × (round_robin task nodes ≡ some r)
          × Places nodes r (λ n. get_elem? eligible (task.id % length eligible) ≡ some n)
    found e (n, g) =
        let m : In n nodes × (is_schedulable n ≡ true) =
          filter-In is_schedulable n nodes (get_elem?-In eligible _ n g) in
        (ok n.id, rw (e, g), (n, m.0, m.1, refl, g))

id_less_trans : (a b c : Node) → id_less a b ≡ true → id_less b c ≡ true → id_less a c ≡ true
id_less_trans a b c p q = ground arith

id_less_irrefl : (a : Node) → id_less a a ≡ false
id_less_irrefl a = ground arith

-- What an election may answer: nobody if no node is healthy, or a healthy node with the least id.
abbrev pub Elects : List Node → Option ℕ → Type 0
Elects nodes none = filter (λ n. accepts_work n.status) nodes ≡ []
Elects nodes (some id) =
    (n : Node) × In n nodes
    × (accepts_work n.status ≡ true)
    × (n.id ≡ id)
    × All (λ m. accepts_work m.status ≡ true → id_less m n ≡ false) nodes

-- The election finds nobody only where no node is healthy; otherwise it names a healthy node, and
-- no healthy node has a lower id.
pub elect-Elects : (nodes : List Node) → Elects nodes (elect nodes)
unfolding elect
elect-Elects nodes =
    go (min_by id_less healthy_nodes)
      (min_by-Least id_less id_less_trans id_less_irrefl healthy_nodes)
  where
    healthy_nodes : List Node
    healthy_nodes = filter (λ n. accepts_work n.status) nodes

    go : (o : Option Node) → Least id_less id_less_trans healthy_nodes o → Elects nodes (id_of o)
    go none e = e
    go (some n) (m, a) =
        let f : In n nodes × (accepts_work n.status ≡ true) = filter-In _ n nodes m in
        (n, f.0, f.1, refl, filter-All _ (λ m. accepts_work m.status) nodes a)

-- The id that `LeastLoaded` answers is the id of a node that it was given.
pub least_loaded_known :
    (task : Task) (nodes : List Node) (id : ℕ)
    → least_loaded task nodes ≡ ok id
    → (n : Node) × In n nodes × (n.id ≡ id)
least_loaded_known task nodes id e =
    let (n, m, fits, same, best) =
      subst
        (λ r.
          Places nodes r (λ n. All (λ m. is_schedulable m ≡ true → load_less m n ≡ false) nodes))
        e (least_loaded-Places task nodes) in
    (n, m, same)
