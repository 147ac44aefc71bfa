-- ===== src/Supervisor/Tracked.antt =====
-- crates/cluster-local/src/supervisor.rs: the operations that end an attempt lose no waiting task.
use gavel.Shared.{
  ℕ, ◌≡◌, refl, inl, inr, ◌∙◌, not, ◌||◌, some, List, [], ◌∷◌, ◌++◌, String, arith, Bool-cases,
  Option-cases, In-append_left, In-append_right, ltb, map, filter, Result-cases,
}
use gavel.Shared.BTreeMap.{get, values}
use gavel.Time.{Millis}
use gavel.Job.State.{is_terminal}
use gavel.Job.Machine.{Task, Job, TaskOutcome, complete, fail, requeue}
use gavel.Job.Lifecycle.{fails, requeues, completes}
use gavel.Supervisor.Table.{TaskProperty}
use gavel.Supervisor.State.{
  Supervisor, Config, ClusterEvent, insert_task, persist_task, task_completed, emit, record_failure,
  node_eq,
}
use gavel.Supervisor.Settle.{
  close_job, settle_job, update_job, retry, give_up, retry_or_give_up, finish_completed,
  finish_failed, finish_task, fail_attempt, requeue_each, requeue_tasks_of, held_by, count_failed,
  count_completed, outcome_of,
}
use gavel.Supervisor.Table.{Tracks, Tracks-queue, Tracks-call_task, call_task_ok}

module _ {Handle : Type 0} where
  abbrev pub Tracked : TaskProperty → Supervisor Handle → Type 0
  Tracked P s = Tracks P s.tasks s.queue

  -- The table and the queue are untouched.
  abbrev pub Same : Supervisor Handle → Supervisor Handle → Type 0
  Same s t = (t.tasks ≡ s.tasks) × (t.queue ≡ s.queue)

  pub Tracked-Same :
      {P : TaskProperty} (s t : Supervisor Handle) → Same s t → Tracked P s → Tracked P t
  Tracked-Same s t (e, f) h = rw (e, f) h

  pub emit-Same : (s : Supervisor Handle) (now : Millis) (e : ClusterEvent) → Same s (emit s now e)
  unfolding emit
  emit-Same s now e = (refl, refl)

  pub update_job-Same :
      (s : Supervisor Handle) (job_id : ℕ) (f : Job → Job) → Same s (update_job s job_id f)
  unfolding update_job
  update_job-Same s job_id f = elim (Option-cases (get job_id s.jobs)) [
    | inl e ↦ rw (e, update_job) (refl, refl)
    | inr (j, e) ↦ rw (e, update_job) (refl, refl)
  ]

  pub settle_job-Same :
      (s : Supervisor Handle) (job_id : ℕ) (now : Millis) → Same s (settle_job s job_id now)
  unfolding settle_job close_job emit
  settle_job-Same s job_id now = ground arith

  pub Same-trans : (s t u : Supervisor Handle) → Same s t → Same t u → Same s u
  Same-trans s t u (a, b) (c, d) = (c ∙ a, d ∙ b)

  counted-Tracked :
      {P : TaskProperty} (s : Supervisor Handle) (id job_id : ℕ) (f : Job → Job) (now : Millis)
      → Tracked P s
      → Tracked P (settle_job (update_job s id f) job_id now)
  counted-Tracked s id job_id f now h =
      Tracked-Same s (settle_job (update_job s id f) job_id now)
        (Same-trans s (update_job s id f) (settle_job (update_job s id f) job_id now)
          (update_job-Same s id f) (settle_job-Same (update_job s id f) job_id now))
        h

  retry-Tracked :
      {P : TaskProperty} (s : Supervisor Handle) (k : ℕ) (task : Task) (now : Millis)
      → get k s.tasks ≡ some task
      → Tracked P s
      → Tracked P (retry s task now)
  unfolding retry emit
  retry-Tracked s k task now e h = elim (Result-cases (requeue task now)) [
    | inl (_, f) ↦ rw (f, retry) h
    | inr (task', f) ↦
        rw (f, retry)
          (Tracks-call_task s.tasks (s.queue ++ (task'.id ∷ [])) k task task' requeues now
            (Tracks-queue s.tasks s.queue (s.queue ++ (task'.id ∷ []))
              (λ j m. In-append_left j s.queue (task'.id ∷ []) m) h)
            e f refl
            (λ _.
              In-append_right k s.queue (task'.id ∷ [])
                (inl ((call_task_ok task task' requeues now f).0 ∙ (h.kept k task e).id_eq))))
  ]

  give_up-Tracked :
      {P : TaskProperty} (s : Supervisor Handle) (k : ℕ) (task : Task) (now : Millis)
      → get k s.tasks ≡ some task
      → Tracked P s
      → Tracked P (give_up s task now)
  unfolding give_up
  give_up-Tracked s k task now e h = elim (Result-cases (fail task now)) [
    | inl (_, f) ↦ rw (f, give_up) h
    | inr (task', f) ↦
        rw (f, give_up)
          (counted-Tracked (persist_task (insert_task s task') task') task'.job_id task'.job_id
            count_failed now
            (Tracks-call_task s.tasks s.queue k task task' fails now h e f refl
              (λ w. absurd (ground arith))))
  ]

  retry_or_give_up-Tracked :
      {P : TaskProperty} (config : Config) (s : Supervisor Handle) (k : ℕ) (now : Millis)
      → Tracked P s
      → Tracked P (retry_or_give_up config s k now)
  unfolding retry_or_give_up
  retry_or_give_up-Tracked config s k now h = elim (Option-cases (get k s.tasks)) [
    | inl e ↦ rw (e, retry_or_give_up) h
    | inr (task, e) ↦ elim (Bool-cases (ltb task.attempt config.max_task_attempts)) [
      | inl l ↦ rw (e, l, retry_or_give_up) (retry-Tracked s k task now e h)
      | inr l ↦ rw (e, l, retry_or_give_up) (give_up-Tracked s k task now e h)
    ]
  ]

  finish_completed-Tracked :
      {P : TaskProperty} (s : Supervisor Handle) (node k : ℕ) (task : Task) (output : String)
      (now : Millis)
      → get k s.tasks ≡ some task
      → Tracked P s
      → Tracked P (finish_completed s node task output now)
  unfolding finish_completed
  finish_completed-Tracked s node k task output now e h =
      elim (Result-cases (complete task output now)) [
        | inl (_, f) ↦ rw (f, finish_completed) h
        | inr (task', f) ↦
            let stored = persist_task (insert_task s task') task' in
            let told = emit stored now (task_completed task'.id node) in
            rw (f, finish_completed)
              (counted-Tracked told task'.job_id task'.job_id count_completed now (
                Tracked-Same stored told (emit-Same stored now (task_completed task'.id node)) (
                  Tracks-call_task s.tasks s.queue k task task' (completes output) now h e f refl
                    (λ w. absurd (ground arith)))))
      ]

  outcome_of-Tracked :
      {P : TaskProperty} (config : Config) (s : Supervisor Handle) (node k : ℕ) (task : Task)
      (outcome : TaskOutcome) (now : Millis)
      → get k s.tasks ≡ some task
      → Tracked P s
      → Tracked P (outcome_of config s node task k outcome now)
  unfolding finish_failed record_failure emit
  outcome_of-Tracked config s node k task (TaskOutcome.completed output) now e h =
      finish_completed-Tracked s node k task output now e h
  outcome_of-Tracked config s node k task (TaskOutcome.failed reason detail) now e h =
      retry_or_give_up-Tracked config _ k now h

  pub finish_task-Tracked :
      {P : TaskProperty} (config : Config) (s : Supervisor Handle) (node k : ℕ)
      (outcome : TaskOutcome) (now : Millis)
      → Tracked P s
      → Tracked P (finish_task config s node k outcome now)
  unfolding finish_task
  finish_task-Tracked config s node k outcome now h = elim (Option-cases (get k s.tasks)) [
    | inl e ↦ rw (e, finish_task) h
    | inr (task, e) ↦
        elim (Bool-cases (not (node_eq task.assigned_to (some node)) || is_terminal task.state)) [
          | inl late ↦ rw (e, late, finish_task) h
          | inr due ↦
              rw (e, due, finish_task) (outcome_of-Tracked config s node k task outcome now e h)
        ]
  ]

  pub fail_attempt-Tracked :
      {P : TaskProperty} (config : Config) (s : Supervisor Handle) (node k : ℕ) (now : Millis)
      → Tracked P s
      → Tracked P (fail_attempt config s node k now)
  unfolding fail_attempt record_failure emit
  fail_attempt-Tracked config s node k now h = elim (Option-cases (get k s.tasks)) [
    | inl e ↦ rw (e, fail_attempt) h
    | inr (task, e) ↦ rw (e, fail_attempt) (retry_or_give_up-Tracked config _ k now h)
  ]

  requeue_each-Tracked :
      {P : TaskProperty} (config : Config) (s : Supervisor Handle) (node : ℕ) (ids : List ℕ)
      (now : Millis)
      → Tracked P s
      → Tracked P (requeue_each config s node ids now)
  unfolding requeue_each
  requeue_each-Tracked config s node [] now h = h
  requeue_each-Tracked config s node (id ∷ ids) now h =
      requeue_each-Tracked config (fail_attempt config s node id now) node ids now
        (fail_attempt-Tracked config s node id now h)

  pub requeue_tasks_of-Tracked :
      {P : TaskProperty} (config : Config) (s : Supervisor Handle) (node : ℕ) (now : Millis)
      → Tracked P s
      → Tracked P (requeue_tasks_of config s node now)
  unfolding requeue_tasks_of
  requeue_tasks_of-Tracked config s node now h =
      requeue_each-Tracked config s node (map (λ t. t.id) (filter (held_by node) (values s.tasks)))
        now h
