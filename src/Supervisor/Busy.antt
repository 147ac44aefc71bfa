-- ===== src/Supervisor/Busy.antt =====
-- crates/cluster-local/src/supervisor.rs, `dispatch`: what it does to the table and the queue, and which
-- nodes are busy.
use gavel.Shared.{
  ℕ, ◌≡◌, refl, sym, subst, inl, inr, Bool, true, false, Option, none, some, List, [], ◌∷◌, ok, err,
  arith, ◌==◌, Bool-cases, unwrap_or, contains, is_some,
}
use gavel.Shared.BTreeMap.{BTreeMap, get, insert, values}
use gavel.Time.{Millis}
use gavel.Job.State.{TaskState, StateError, can_transition_to}
use gavel.Job.Machine.{Task, transition_to, assign, requeue}
use gavel.Job.Lifecycle.{IsConsistent, requeues, call_task-IsConsistent}
use gavel.Supervisor.Table.{TaskProperty}
use gavel.Supervisor.Dispatch.{is_active, busy_nodes}
use gavel.Supervisor.Table.{IsKept, Tracks, Tracks-insert}

-- The front of the queue may go if it does not wait.
pub Tracks-rest :
    {P : TaskProperty} (tasks : BTreeMap Task) (id : ℕ) (rest : List ℕ)
    → ((t : Task) → get id tasks ≡ some t → t.state ≡ TaskState.queued → ⊥)
    → Tracks P tasks (id ∷ rest)
    → Tracks P tasks rest
Tracks-rest {P = P} tasks id rest busy h = record {
  closed = h.closed;
  sorted = h.sorted;
  kept = found;
  alone = h.alone;
}
  where
    found : (k : ℕ) (t : Task) → get k tasks ≡ some t → IsKept P rest k t
    found k t e =
        let kept = h.kept k t e in
        record {
          id_eq = kept.id_eq;
          consistent = kept.consistent;
          holds = kept.holds;
          waits = λ w. elim (kept.waits w) [
            | inl at_k ↦ absurd (busy t (subst (λ j. get j tasks ≡ some t) (sym at_k) e) w)
            | inr m ↦ m
          ];
        }

pub assign_err :
    (t : Task) (node : ℕ) (now : Millis) (e : StateError)
    → assign t node now ≡ err e
    → t.state ≡ TaskState.queued
    → ⊥
unfolding assign transition_to can_transition_to
assign_err t node now e f w = ground arith

-- A task that was just assigned goes back under its id, and waits.
pub put_back_lem :
    (t : Task) (now : Millis)
    → t.state ≡ TaskState.assigned
    → let back = unwrap_or (requeue t now) t in (back.id ≡ t.id) × (back.state ≡ TaskState.queued)
unfolding requeue transition_to can_transition_to
put_back_lem t now h = ground arith

pub Tracks-put_back :
    {P : TaskProperty} (tasks : BTreeMap Task) (rest : List ℕ) (t : Task) (now : Millis)
    → t.state ≡ TaskState.assigned
    → IsConsistent t
    → P t.id t
    → Tracks P tasks (t.id ∷ rest)
    → let back = unwrap_or (requeue t now) t in
      Tracks P (insert back.id back tasks) (back.id ∷ rest)
Tracks-put_back {P = P} tasks rest t now state c p h =
    let back = unwrap_or (requeue t now) t in
    let (same_id, waiting) = put_back_lem t now state in
    Tracks-insert tasks (back.id ∷ rest) back
      (subst (λ j. Tracks P tasks (j ∷ rest)) (sym same_id) h)
      (record {
        id_eq = refl;
        consistent = call_task-IsConsistent t requeues now c;
        holds = subst (λ j. P j back) (sym same_id) (h.closed t.id t requeues now p);
        waits = λ w. inl refl;
      })
      (λ j u g active active' node. absurd (ground arith))

abbrev pub marked : List ℕ → Option ℕ → Bool
marked busy none = false
marked busy (some n) = contains busy n

-- The nodes of the active tasks are marked.
abbrev pub IsBusy : List ℕ → BTreeMap Task → Type 0
IsBusy busy tasks =
    (k : ℕ) (t : Task)
    → get k tasks ≡ some t
    → is_active t.state ≡ true
    → marked busy t.assigned_to ≡ true

busy_nodes_step :
    (t : Task) (ts : List Task) (o : Option ℕ)
    → marked (busy_nodes ts) o ≡ true
    → marked (busy_nodes (t ∷ ts)) o ≡ true
unfolding busy_nodes
busy_nodes_step t ts o h = ground arith

busy_nodes_head :
    (t : Task) (ts : List Task)
    → is_active t.state ≡ true
    → is_some t.assigned_to ≡ true
    → marked (busy_nodes (t ∷ ts)) t.assigned_to ≡ true
unfolding busy_nodes
busy_nodes_head t ts a s = ground arith

busy_nodes_lem :
    (k : ℕ) (t : Task) (m : BTreeMap Task)
    → get k m ≡ some t
    → is_active t.state ≡ true
    → is_some t.assigned_to ≡ true
    → marked (busy_nodes (values m)) t.assigned_to ≡ true
unfolding get
busy_nodes_lem k t [] e a s = absurd (ground arith)
busy_nodes_lem k t ((j, u) ∷ m) e a s = elim (Bool-cases (j == k)) [
  | inl same ↦
      let found : u ≡ t = ground arith in
      subst (λ v. marked (busy_nodes (u ∷ values m)) v.assigned_to ≡ true) found
        (busy_nodes_head u (values m) (rw found a) (rw found s))
  | inr other ↦
      let later : get k m ≡ some t = ground arith in
      busy_nodes_step u (values m) t.assigned_to (busy_nodes_lem k t m later a s)
]

active_some : (t : Task) → IsConsistent t → is_active t.state ≡ true → is_some t.assigned_to ≡ true
active_some t c a = ground arith

pub Tracks-IsBusy :
    {P : TaskProperty} (tasks : BTreeMap Task) (queue : List ℕ)
    → Tracks P tasks queue
    → IsBusy (busy_nodes (values tasks)) tasks
Tracks-IsBusy tasks queue h k t e a =
    busy_nodes_lem k t tasks e a (active_some t (h.kept k t e).consistent a)

pub assigned_on :
    (t t' : Task) (node : ℕ) (now : Millis) → assign t node now ≡ ok t' → t'.assigned_to ≡ some node
unfolding assign transition_to can_transition_to
assigned_on t t' node now e = ground arith
