-- ===== src/Scheduler/Defs.antt =====
-- crates/cluster-core/src/scheduler.rs and coordinator.rs. An async function that only computes is
-- the function.
use gavel.Shared.{
  ℕ, ◌%◌, Bool, ◌&&◌, ◌||◌, Option, none, some, List, [], ◌∷◌, Result, ok, err, ltb, ◌==◌,
  if◌then◌else◌, length, get_elem?, filter,
}
use gavel.Job.Machine.{Task}
use gavel.Node.Defs.{Node, compute_weight, accepts_work, is_schedulable}

pub data SchedulerError : Type 0 where
  no_eligible_node : SchedulerError

unfoldable pub schedulable : List Node → List Node
schedulable nodes = filter is_schedulable nodes

-- `Iterator::min_by_key`: the first of the least. `less a b` compares the keys.
module _ {ℓ} {A : Type ℓ} (less : A → A → Bool) where
  unfoldable pub min_from : A → List A → A
  min_from best [] = best
  min_from best (x ∷ xs) = min_from (if less x best then x else best) xs

  unfoldable pub min_by : List A → Option A
  unfolding min_from
  min_by [] = none
  min_by (x ∷ xs) = some (min_from x xs)

-- The tuple `(running_tasks, load_percent, Reverse(compute_weight), id)`, compared from the left.
unfoldable pub load_less : Node → Node → Bool
load_less a b =
    ltb a.load.running_tasks b.load.running_tasks
    || (a.load.running_tasks == b.load.running_tasks
        && (ltb a.load.load_percent b.load.load_percent
            || (a.load.load_percent == b.load.load_percent
                && (ltb (compute_weight b.capabilities) (compute_weight a.capabilities)
                    || (compute_weight b.capabilities == compute_weight a.capabilities
                        && ltb a.id b.id)))))

-- `map(|n| n.id).ok_or(NoEligibleNode)`.
abbrev pub id_or_none : Option Node → Result SchedulerError ℕ
id_or_none none = err no_eligible_node
id_or_none (some n) = ok n.id

-- `LeastLoaded::select_node`.
unfoldable pub least_loaded : Task → List Node → Result SchedulerError ℕ
unfolding schedulable min_by load_less
least_loaded task nodes = id_or_none (min_by load_less (schedulable nodes))

-- `RoundRobin::select_node`: an index out of range would be a panic, here `none`.
unfoldable pub round_robin : Task → List Node → Option (Result SchedulerError ℕ)
unfolding schedulable
round_robin task nodes =
    let eligible = schedulable nodes in
    if length eligible == 0
    then some (err no_eligible_node)
    else elim (get_elem? eligible (task.id % length eligible)) [
      | none ↦ none
      | some n ↦ some (ok n.id)
    ]

abbrev pub id_less : Node → Node → Bool
id_less a b = ltb a.id b.id

abbrev pub id_of : Option Node → Option ℕ
id_of none = none
id_of (some n) = some n.id

-- `LowestHealthyId::elect`.
unfoldable pub elect : List Node → Option ℕ
unfolding min_by
elect nodes = id_of (min_by id_less (filter (λ n. accepts_work n.status) nodes))
