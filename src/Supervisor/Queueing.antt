-- ===== src/Supervisor/Queueing.antt =====
-- crates/cluster-local/src/supervisor.rs: `dispatch` loses no waiting task, since what it cannot place
-- stays in the queue, and it places no task on a node that has one.
use gavel.Shared.{
  ℕ, ◌≡◌, refl, sym, ap, ◌∙◌, subst, inl, inr, true, false, some, List, [], ◌∷◌, Result, ok, arith,
  ==_iff, Bool-cases, Option-cases, Result-cases, In, contains, filter, In-map, filter-In,
}
use gavel.Shared.BTreeMap.{BTreeMap, get, insert, get-insert, values}
use gavel.Time.{Millis}
use gavel.Node.Defs.{Node}
use gavel.Scheduler.Defs.{SchedulerError}
use gavel.Job.Machine.{Task, assign}
use gavel.Job.Lifecycle.{assigns}
use gavel.Supervisor.Table.{TaskProperty}
use gavel.Supervisor.State.{Supervisor, NodeEntry, Env, NodeInbox, persist_task, insert_task, emit}
use gavel.Supervisor.Leadership.{entries}
use gavel.Supervisor.Dispatch.{
  Round, return, continue, is_candidate, busy_nodes, candidates, start_job, start_job_if_queued,
  send_to, placed, put_back, place, round, dispatch_loop, dispatch,
}
use gavel.Supervisor.Table.{
  Tracks, Tracks-insert, call_task_ok, call_task_keeps, call_task_holds, found-insert,
}
use gavel.Supervisor.Tracked.{Tracked, Same}
use gavel.Supervisor.Busy.{
  marked, IsBusy, Tracks-rest, assign_err, Tracks-put_back, Tracks-IsBusy, assigned_on,
}

-- The scheduler chooses among the nodes that it is given.
abbrev pub Chooses : (Task → List Node → Result SchedulerError ℕ) → Type 0
Chooses select =
    (task : Task) (nodes : List Node) (id : ℕ)
    → select task nodes ≡ ok id
    → (n : Node) × In n nodes × (n.id ≡ id)

-- A task that was assigned to a node that had none.
assigned_lem :
    {P : TaskProperty} (tasks : BTreeMap Task) (busy : List ℕ) (id : ℕ) (rest : List ℕ)
    (task task' : Task) (node : ℕ) (now : Millis)
    → Tracks P tasks (id ∷ rest)
    → IsBusy busy tasks
    → contains busy node ≡ false
    → get id tasks ≡ some task
    → assign task node now ≡ ok task'
    → Tracks P (insert task'.id task' tasks) rest
      × IsBusy (node ∷ busy) (insert task'.id task' tasks)
assigned_lem tasks busy id rest task task' node now h b idle e f =
    let kept = h.kept id task e in
    let (same_id, state) = call_task_ok task task' (assigns node) now f in
    let on : task'.assigned_to ≡ some node = assigned_on task task' node now f in
    (
      Tracks-rest (insert task'.id task' tasks) id rest
          (λ t g w.
            ground (arith, get-insert task'.id id task' tasks, ==_iff task'.id id, kept.id_eq))
          (Tracks-insert tasks (id ∷ rest) task' h
            (record {
              id_eq = refl;
              consistent = call_task_keeps task task' (assigns node) now f kept.consistent;
              holds =
                  call_task_holds h.closed id task task' (assigns node) now f (same_id ∙ kept.id_eq)
                    kept.holds;
              waits = λ w. absurd (ground arith);
            })
            (λ j u g active active' same.
              let there : marked busy u.assigned_to ≡ true = b j u g active in
              absurd (ground arith))),
      λ k u g active. elim (found-insert tasks task' u k g) [
        | inl (at_k, same) ↦ ground (arith, ap (λ w. w.assigned_to) same)
        | inr old ↦ ground (arith, b k u old active)
      ],
    )

module _ {Handle : Type 0} where
  -- How a round may leave the table and the queue, with `rest` behind the task that it was about.
  abbrev pub Continues : TaskProperty → List ℕ → Round Handle → Type 0
  Continues P rest (return t) = Tracked P t
  Continues P rest (continue t busy) = Tracks P t.tasks rest × IsBusy busy t.tasks

  start_job_if_queued-Same :
      (s : Supervisor Handle) (job_id : ℕ) (now : Millis)
      → Same s (start_job_if_queued s job_id now)
  unfolding start_job_if_queued start_job
  start_job_if_queued-Same s job_id now = ground arith

  pub candidates_idle :
      (busy : List ℕ) (es : List (NodeEntry Handle)) (n : Node)
      → In n (candidates busy es)
      → contains busy n.id ≡ false
  unfolding candidates is_candidate
  candidates_idle busy es n m =
      let (e, kept, same) = In-map (λ e. e.node) n (filter (is_candidate busy) es) m in
      let fits : is_candidate busy e ≡ true = (filter-In (is_candidate busy) e es kept).1 in
      subst (λ x. contains busy x.id ≡ false) same (ground arith)

  placed-Continues :
      {P : TaskProperty} (s : Supervisor Handle) (busy rest : List ℕ) (task : Task) (node : ℕ)
      (now : Millis)
      → Tracks P (insert task.id task s.tasks) rest
        × IsBusy (node ∷ busy) (insert task.id task s.tasks)
      → Continues P rest (placed s busy task node now)
  unfolding placed emit
  placed-Continues {P = P} s busy rest task node now h =
      let stored = persist_task (insert_task s task) task in
      rw ((start_job_if_queued-Same stored task.job_id now).0) h

  place-Continues :
      {P : TaskProperty} (env : Env Handle) (s : Supervisor Handle) (busy : List ℕ) (id : ℕ)
      (rest : List ℕ) (task : Task) (node : ℕ) (now : Millis)
      → get id s.tasks ≡ some task
      → contains busy node ≡ false
      → Tracks P s.tasks (id ∷ rest)
      → IsBusy busy s.tasks
      → Continues P rest (place env s busy rest task node now)
  unfolding place put_back
  place-Continues {P = P} env s busy id rest task node now e idle h b =
      elim (Result-cases (assign task node now)) [
        | inl (x, f) ↦
            rw (f, place)
              (
                Tracks-rest s.tasks id rest (λ t g w. assign_err task node now x f (ground arith))
                    h,
                b,
              )
        | inr (task', f) ↦
            elim (Bool-cases ((send_to env s.nodes node (NodeInbox.assign task')).1)) [
              | inl taken ↦
                  rw (f, taken, place)
                    (placed-Continues _ busy rest task' node now
                      (assigned_lem s.tasks busy id rest task task' node now h b idle e f))
              | inr refused ↦
                  let kept = h.kept id task e in
                  let (same_id, state) = call_task_ok task task' (assigns node) now f in
                  rw (f, refused, place)
                    (Tracks-put_back s.tasks rest task' now state
                      (call_task_keeps task task' (assigns node) now f kept.consistent)
                      (call_task_holds h.closed id task task' (assigns node) now f
                        (same_id ∙ kept.id_eq) kept.holds)
                      (subst (λ j. Tracks P s.tasks (j ∷ rest)) (sym (same_id ∙ kept.id_eq)) h))
            ]
      ]

  pub round-Continues :
      {P : TaskProperty} (env : Env Handle) (s : Supervisor Handle) (busy : List ℕ) (id : ℕ)
      (rest : List ℕ) (now : Millis)
      → Chooses env.select_node
      → Tracks P s.tasks (id ∷ rest)
      → IsBusy busy s.tasks
      → Continues P rest (round env s busy id rest now)
  unfolding round
  round-Continues env s busy id rest now c h b = elim (Option-cases (get id s.tasks)) [
    | inl e ↦ rw (e, round) (Tracks-rest s.tasks id rest (λ t g w. absurd (ground arith)) h, b)
    | inr (task, e) ↦ elim (Result-cases (env.select_node task (candidates busy (entries s)))) [
      | inl (x, f) ↦ rw (e, f, round) h
      | inr (node, f) ↦
          let (n, m, same) = c task (candidates busy (entries s)) node f in
          let idle : contains busy node ≡ false =
            subst (λ j. contains busy j ≡ false) same (candidates_idle busy (entries s) n m) in
          rw (e, f, round) (place-Continues env s busy id rest task node now e idle h b)
    ]
  ]

  dispatch_loop-Tracked :
      {P : TaskProperty} (env : Env Handle) (s : Supervisor Handle) (busy queue : List ℕ)
      (now : Millis)
      → Chooses env.select_node
      → Tracks P s.tasks queue
      → IsBusy busy s.tasks
      → Tracked P (dispatch_loop env s busy queue now)
  unfolding dispatch_loop
  dispatch_loop-Tracked {P = P} env s busy [] now c h b = h
  dispatch_loop-Tracked {P = P} env s busy (id ∷ rest) now c h b =
      go (round env s busy id rest now) (λ t b' k l. dispatch_loop-Tracked env t b' rest now c k l)
        (round-Continues env s busy id rest now c h b)
    where
      go :
          (r : Round Handle)
          → ((t : Supervisor Handle) (b' : List ℕ)
              → Tracks P t.tasks rest
              → IsBusy b' t.tasks
              → Tracked P (dispatch_loop env t b' rest now))
          → Continues P rest r
          → Tracked P
              (elim r [ return t ↦ t | continue t busy' ↦ dispatch_loop env t busy' rest now ])
      go (return t) later kept = kept
      go (continue t busy') later kept = later t busy' kept.0 kept.1

  pub dispatch-Tracked :
      {P : TaskProperty} (env : Env Handle) (s : Supervisor Handle) (now : Millis)
      → Chooses env.select_node
      → Tracked P s
      → Tracked P (dispatch env s now)
  unfolding dispatch
  dispatch-Tracked env s now c h =
      dispatch_loop-Tracked env s (busy_nodes (values s.tasks)) s.queue now c h
        (Tracks-IsBusy s.tasks s.queue h)
