-- ===== src/Supervisor/Table.antt =====
-- crates/cluster-local/src/supervisor.rs: the task table and the queue. What holds of each task of the
-- table, and that a call of a method of a task keeps it.
use gavel.Shared.{
  ℕ, ◌≡◌, refl, sym, ◌⊎◌, inl, inr, ap, ◌∙◌, Bool, true, false, some, List, ok, arith, ◌==◌, ==_iff,
  Bool-cases, In, subst, unwrap_or,
}
use gavel.Shared.BTreeMap.{
  BTreeMap, get, insert, get-insert, IsSorted, insert-IsSorted, retain, retain-IsSorted, get-retain,
}
use gavel.Time.{Millis}
use gavel.Job.State.{TaskState}
use gavel.Job.Machine.{Task, transition_to, assign, start, complete, fail, requeue}
use gavel.Job.Lifecycle.{
  IsConsistent, TaskCall, assigns, starts, fails, requeues, completes, is_assignment, call_task,
  call_task-IsConsistent,
}
use gavel.Supervisor.Dispatch.{is_active}

-- A property of a task under a key.
abbrev pub TaskProperty : Type 1
TaskProperty = ℕ → Task → Type 0

-- The property that says nothing.
abbrev pub Anything : TaskProperty
Anything k t = Unit {0}

-- The property survives each call of a method of a task.
abbrev pub IsClosed : TaskProperty → Type 0
IsClosed P =
    (k : ℕ) (t : Task) (c : TaskCall) (at : Millis) → P k t → P k (unwrap_or (call_task t c at) t)

-- What is kept of each task of the table, with a property `P` that Task's methods keep: it stands under its id, it holds what its state says, and
-- while it waits its id is in the queue.
pub record IsKept (P : TaskProperty) (queue : List ℕ) (k : ℕ) (t : Task) : Type 0 where
  pub id_eq : t.id ≡ k
  pub consistent : IsConsistent t
  pub holds : P k t
  pub waits : t.state ≡ TaskState.queued → In k queue

-- No task but `t` itself is active on the node of `t`, if `t` is active.
abbrev pub IsAlone : BTreeMap Task → Task → Type 0
IsAlone tasks t =
    (j : ℕ) (u : Task)
    → get j tasks ≡ some u
    → is_active u.state ≡ true
    → is_active t.state ≡ true
    → u.assigned_to ≡ t.assigned_to
    → j ≡ t.id

-- The table is a map, each of its tasks is kept, and no two active ones have the same node.
pub record Tracks (P : TaskProperty) (tasks : BTreeMap Task) (queue : List ℕ) : Type 0 where
  pub closed : IsClosed P
  pub sorted : IsSorted tasks
  pub kept : (k : ℕ) (t : Task) → get k tasks ≡ some t → IsKept P queue k t
  pub alone : (k : ℕ) (t : Task) → get k tasks ≡ some t → IsAlone tasks t

-- What `get` finds after an insertion.
pub found-insert :
    (tasks : BTreeMap Task) (t u : Task) (k : ℕ)
    → get k (insert t.id t tasks) ≡ some u
    → ((t.id ≡ k) × (t ≡ u)) ⊎ (get k tasks ≡ some u)
found-insert tasks t u k e = elim (Bool-cases (t.id == k)) [
  | inl same ↦ inl ((==_iff t.id k).0 same, ground (arith, get-insert t.id k t tasks))
  | inr other ↦ inr (ground (arith, get-insert t.id k t tasks))
]

pub Tracks-insert :
    {P : TaskProperty} (tasks : BTreeMap Task) (queue : List ℕ) (t : Task)
    → Tracks P tasks queue
    → IsKept P queue t.id t
    → IsAlone tasks t
    → Tracks P (insert t.id t tasks) queue
Tracks-insert {P = P} tasks queue t h kept alone = record {
  closed = h.closed;
  sorted = insert-IsSorted t.id t tasks h.sorted;
  kept = keeps;
  alone = excludes;
}
  where
    keeps : (k : ℕ) (u : Task) → get k (insert t.id t tasks) ≡ some u → IsKept P queue k u
    keeps k u e = elim (found-insert tasks t u k e) [
      | inl (at_k, same) ↦
          subst (λ j. IsKept P queue j u) at_k (subst (λ v. IsKept P queue t.id v) same kept)
      | inr old ↦ h.kept k u old
    ]

    excludes :
        (k : ℕ) (u : Task) → get k (insert t.id t tasks) ≡ some u → IsAlone (insert t.id t tasks) u
    excludes k u e j v f active active' node = elim (found-insert tasks t v j f) [
      | inl (at_j, v_same) ↦ elim (found-insert tasks t u k e) [
        | inl (at_k, u_same) ↦ ground arith
        | inr old ↦
            let there : k ≡ t.id =
              alone k u old active' (rw v_same active) (rw v_same (sym node)) in
            omega (arith, (h.kept k u old).id_eq)
      ]
      | inr old_v ↦ elim (found-insert tasks t u k e) [
        | inl (at_k, u_same) ↦
            alone j v old_v active (rw u_same active') (rw u_same node) ∙ ap (λ w. w.id) u_same
        | inr old ↦ h.alone k u old j v old_v active active' node
      ]
    ]

pub Tracks-queue :
    {P : TaskProperty} (tasks : BTreeMap Task) (q r : List ℕ)
    → ((k : ℕ) → In k q → In k r)
    → Tracks P tasks q
    → Tracks P tasks r
Tracks-queue {P = P} tasks q r sub h = record {
  closed = h.closed;
  sorted = h.sorted;
  kept = λ k t e.
      let kept = h.kept k t e in
      record {
        id_eq = kept.id_eq;
        consistent = kept.consistent;
        holds = kept.holds;
        waits = λ w. sub k (kept.waits w);
      };
  alone = h.alone;
}

-- The state in which a call that succeeds leaves the task.
abbrev pub target : TaskCall → TaskState
target (assigns node) = TaskState.assigned
target starts = TaskState.running
target fails = TaskState.failed
target requeues = TaskState.queued
target (completes output) = TaskState.completed

pub call_task_ok :
    (t t' : Task) (c : TaskCall) (at : Millis)
    → call_task t c at ≡ ok t'
    → (t'.id ≡ t.id) × (t'.state ≡ target c)
unfolding assign start complete fail requeue transition_to
call_task_ok t t' (assigns node) at e = ground arith
call_task_ok t t' starts at e = ground arith
call_task_ok t t' fails at e = ground arith
call_task_ok t t' requeues at e = ground arith
call_task_ok t t' (completes output) at e = ground arith

pub call_task_keeps :
    (t t' : Task) (c : TaskCall) (at : Millis)
    → call_task t c at ≡ ok t'
    → IsConsistent t
    → IsConsistent t'
call_task_keeps t t' c at e h =
    let v = call_task-IsConsistent t c at h in subst (λ r. IsConsistent (unwrap_or r t)) e v

pub call_task_holds :
    {P : TaskProperty}
    → IsClosed P
    → (k : ℕ) (t t' : Task) (c : TaskCall) (at : Millis) → call_task t c at ≡ ok t'
    → t'.id ≡ k
    → P k t
    → P t'.id t'
call_task_holds {P = P} closed k t t' c at e at_k h =
    subst (λ j. P j t') (sym at_k) (subst (λ r. P k (unwrap_or r t)) e (closed k t c at h))

-- A call that is no assignment makes no task active, and moves none.
call_task_active :
    (t t' : Task) (c : TaskCall) (at : Millis)
    → call_task t c at ≡ ok t'
    → is_assignment c ≡ false
    → is_active t'.state ≡ true
    → (is_active t.state ≡ true) × (t'.assigned_to ≡ t.assigned_to)
unfolding assign start complete fail requeue transition_to
call_task_active t t' (assigns node) at e n a = absurd (ground arith)
call_task_active t t' starts at e n a = ground arith
call_task_active t t' fails at e n a = absurd (ground arith)
call_task_active t t' requeues at e n a = absurd (ground arith)
call_task_active t t' (completes output) at e n a = absurd (ground arith)

-- A task of the table after a call on it, with a queue that has it if it waits.
pub Tracks-call_task :
    {P : TaskProperty} (tasks : BTreeMap Task) (queue : List ℕ) (k : ℕ) (t t' : Task) (c : TaskCall)
    (at : Millis)
    → Tracks P tasks queue
    → get k tasks ≡ some t
    → call_task t c at ≡ ok t'
    → is_assignment c ≡ false
    → (target c ≡ TaskState.queued → In k queue)
    → Tracks P (insert t'.id t' tasks) queue
Tracks-call_task tasks queue k t t' c at h e f unassigned waits =
    let kept = h.kept k t e in
    let (same_id, state) = call_task_ok t t' c at f in
    let at_k : t'.id ≡ k = same_id ∙ kept.id_eq in
    Tracks-insert tasks queue t' h
      (record {
        id_eq = refl;
        consistent = call_task_keeps t t' c at f kept.consistent;
        holds = call_task_holds h.closed k t t' c at f at_k kept.holds;
        waits = λ w. subst (λ j. In j queue) (sym at_k) (waits (sym state ∙ w));
      })
      (λ j u g active active' node.
        let (was_active, same_node) = call_task_active t t' c at f unassigned active' in
        h.alone k t e j u g active was_active (node ∙ same_node) ∙ sym same_id)

pub Tracks-retain :
    {P : TaskProperty} (tasks : BTreeMap Task) (queue : List ℕ) (p : Task → Bool)
    → Tracks P tasks queue
    → Tracks P (retain p tasks) queue
Tracks-retain tasks queue p h = record {
  closed = h.closed;
  sorted = retain-IsSorted p tasks h.sorted;
  kept = λ k t e. h.kept k t (get-retain p k t tasks h.sorted e);
  alone = λ k t e j u f.
      h.alone k t (get-retain p k t tasks h.sorted e) j u (get-retain p j u tasks h.sorted f);
}
