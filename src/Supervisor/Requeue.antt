-- ===== src/Supervisor/Requeue.antt =====
-- crates/cluster-local/src/supervisor.rs, `requeue_tasks_of`: a node that has gone keeps no task.
use gavel.Shared.{
  ℕ, ◌≡◌, refl, sym, ◌∙◌, subst, inl, inr, true, false, none, some, List, [], ◌∷◌, err, arith, ◌==◌,
  ==_iff, Bool-cases, Option-cases, Result-cases, ltb, map, filter, contains,
}
use gavel.Shared.BTreeMap.{BTreeMap, get, insert, get-insert, values, get-filter}
use gavel.Time.{Millis}
use gavel.Job.State.{StateError, is_terminal, can_transition_to}
use gavel.Job.Machine.{Task, transition_to, fail, requeue}
use gavel.Job.Lifecycle.{fails, requeues}
use gavel.Supervisor.Table.{TaskProperty}
use gavel.Supervisor.State.{Supervisor, Config, persist_task, insert_task, emit, record_failure}
use gavel.Supervisor.Settle.{
  held_by, count_failed, settle_job, update_job, retry, give_up, retry_or_give_up, fail_attempt,
  requeue_each, requeue_tasks_of,
}
use gavel.Supervisor.Dispatch.{is_active}
use gavel.Supervisor.Table.{call_task_ok}
use gavel.Supervisor.Tracked.{
  Tracked, Same-trans, settle_job-Same, update_job-Same, fail_attempt-Tracked,
}

-- Every active task of `after` was in `before` as it is, under another key than `k`.
abbrev Retires : ℕ → BTreeMap Task → BTreeMap Task → Type 0
Retires k before after =
    (j : ℕ) (u : Task)
    → get j after ≡ some u
    → is_active u.state ≡ true
    → (get j before ≡ some u) × (j ≡ k → ⊥)

-- The task under `k` is not active to begin with.
Retires-idle :
    (k : ℕ) (t : Task) (m : BTreeMap Task)
    → get k m ≡ some t
    → is_active t.state ≡ false
    → Retires k m m
Retires-idle k t m e idle j u f active =
    (f, λ at_k. idle_now (subst (λ i. get i m ≡ some u) at_k f))
  where
    idle_now : get k m ≡ some u → ⊥
    idle_now g = ground arith

-- There is no task under `k`.
Retires-absent : (k : ℕ) (m : BTreeMap Task) → get k m ≡ none → Retires k m m
Retires-absent k m e j u f active = (f, λ at_k. absent (subst (λ i. get i m ≡ some u) at_k f))
  where
    absent : get k m ≡ some u → ⊥
    absent g = ground arith

-- It is replaced by one that is not.
Retires-insert :
    (k : ℕ) (t : Task) (m : BTreeMap Task)
    → t.id ≡ k
    → is_active t.state ≡ false
    → Retires k m (insert t.id t m)
Retires-insert k t m at idle j u f active = elim (Bool-cases (t.id == j)) [
  | inl same ↦ absurd (ground (arith, get-insert t.id j t m))
  | inr other ↦ (ground (arith, get-insert t.id j t m), λ at_k. ground (arith, ==_iff t.id j))
]

call_idle :
    (t : Task) (now : Millis) (x : StateError) → requeue t now ≡ err x → is_active t.state ≡ false
unfolding requeue transition_to can_transition_to
call_idle t now x e = ground arith

fail_idle :
    (t : Task) (now : Millis) (x : StateError) → fail t now ≡ err x → is_active t.state ≡ false
unfolding fail transition_to can_transition_to
fail_idle t now x e = ground arith

held :
    (node : ℕ) (t : Task)
    → is_active t.state ≡ true
    → t.assigned_to ≡ some node
    → held_by node t ≡ true
unfolding is_terminal
held node t active on = ground (arith, (==_iff node node).1 refl)

module _ {Handle : Type 0} where
  retry-Retires :
      (s : Supervisor Handle) (k : ℕ) (task : Task) (now : Millis)
      → get k s.tasks ≡ some task
      → task.id ≡ k
      → Retires k s.tasks (retry s task now).tasks
  unfolding retry emit
  retry-Retires s k task now e at = elim (Result-cases (requeue task now)) [
    | inl (x, f) ↦ rw (f, retry) (Retires-idle k task s.tasks e (call_idle task now x f))
    | inr (task', f) ↦
        let (same_id, state) = call_task_ok task task' requeues now f in
        rw (f, retry) (Retires-insert k task' s.tasks (same_id ∙ at) (ground arith))
  ]

  give_up-Retires :
      (s : Supervisor Handle) (k : ℕ) (task : Task) (now : Millis)
      → get k s.tasks ≡ some task
      → task.id ≡ k
      → Retires k s.tasks (give_up s task now).tasks
  unfolding give_up
  give_up-Retires s k task now e at = elim (Result-cases (fail task now)) [
    | inl (x, f) ↦ rw (f, give_up) (Retires-idle k task s.tasks e (fail_idle task now x f))
    | inr (task', f) ↦
        let (same_id, state) = call_task_ok task task' fails now f in
        let stored = persist_task (insert_task s task') task' in
        let counted = update_job stored task'.job_id count_failed in
        let same =
          Same-trans stored counted (settle_job counted task'.job_id now)
            (update_job-Same stored task'.job_id count_failed)
            (settle_job-Same counted task'.job_id now) in
        rw (f, give_up)
          (subst (λ m. Retires k s.tasks m) (sym same.0)
            (Retires-insert k task' s.tasks (same_id ∙ at) (ground arith)))
  ]

  retry_or_give_up-Retires :
      (config : Config) (s : Supervisor Handle) (k : ℕ) (task : Task) (now : Millis)
      → get k s.tasks ≡ some task
      → task.id ≡ k
      → Retires k s.tasks (retry_or_give_up config s k now).tasks
  unfolding retry_or_give_up
  retry_or_give_up-Retires config s k task now e at =
      elim (Bool-cases (ltb task.attempt config.max_task_attempts)) [
        | inl l ↦ rw (e, l, retry_or_give_up) (retry-Retires s k task now e at)
        | inr l ↦ rw (e, l, retry_or_give_up) (give_up-Retires s k task now e at)
      ]

  fail_attempt-Retires :
      {P : TaskProperty} (config : Config) (s : Supervisor Handle) (node k : ℕ) (now : Millis)
      → Tracked P s
      → Retires k s.tasks (fail_attempt config s node k now).tasks
  unfolding fail_attempt record_failure emit
  fail_attempt-Retires config s node k now h = elim (Option-cases (get k s.tasks)) [
    | inl e ↦ rw (e, fail_attempt) (Retires-absent k s.tasks e)
    | inr (task, e) ↦
        rw (e, fail_attempt)
          (retry_or_give_up-Retires config _ k task now e ((h.kept k task e).id_eq))
  ]

  -- The active tasks are those of `before` that are not on the node, or whose turn is still to come.
  abbrev Clears : ℕ → BTreeMap Task → List ℕ → Supervisor Handle → Type 0
  Clears node before ids s =
      (k : ℕ) (t : Task)
      → get k s.tasks ≡ some t
      → is_active t.state ≡ true
      → (get k before ≡ some t) × (t.assigned_to ≡ some node → contains ids k ≡ true)

  requeue_each-Clears :
      {P : TaskProperty} (config : Config) (s : Supervisor Handle) (node : ℕ)
      (before : BTreeMap Task) (ids : List ℕ) (now : Millis)
      → Tracked P s
      → Clears node before ids s
      → Clears node before [] (requeue_each config s node ids now)
  unfolding requeue_each
  requeue_each-Clears config s node before [] now h c = c
  requeue_each-Clears config s node before (id ∷ ids) now h c =
      requeue_each-Clears config (fail_attempt config s node id now) node before ids now
        (fail_attempt-Tracked config s node id now h)
        (λ k t e active.
          let (old, other) = fail_attempt-Retires config s node id now h k t e active in
          let (there, listed) = c k t old active in (there, λ on. later k id ids (listed on) other))
    where
      later :
          (k id : ℕ) (ids : List ℕ)
          → contains (id ∷ ids) k ≡ true
          → (k ≡ id → ⊥)
          → contains ids k ≡ true
      later k id ids l n = elim (Bool-cases (id == k)) [
        | inl same ↦ absurd (n (sym ((==_iff id k).0 same)))
        | inr other ↦ ground arith
      ]

  -- After `requeue_tasks_of`, on a table with the supervisor's invariant, the tasks that are assigned
  -- or running are on other nodes than the one that went, and are as they were before.
  pub requeue_tasks_of_lem :
      {P : TaskProperty} (config : Config) (s : Supervisor Handle) (node : ℕ) (now : Millis)
      → Tracked P s
      → (k : ℕ) (t : Task) → get k (requeue_tasks_of config s node now).tasks ≡ some t
      → is_active t.state ≡ true
      → (get k s.tasks ≡ some t) × (t.assigned_to ≡ some node → ⊥)
  unfolding requeue_tasks_of
  requeue_tasks_of_lem config s node now h k t e active =
      let ids = map (λ t. t.id) (filter (held_by node) (values s.tasks)) in
      let (old, on) =
        requeue_each-Clears config s node s.tasks ids now h
          (λ j u f a. (
            f,
            λ n.
                get-filter (held_by node) (λ t. t.id) j u s.tasks f (held node u a n)
                  ((h.kept j u f).id_eq),
          ))
          k t e active in
      (old, λ n. absurd (ground (arith, on n)))
