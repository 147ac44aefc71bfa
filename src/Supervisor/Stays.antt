-- ===== src/Supervisor/Stays.antt =====
-- crates/cluster-local/src/supervisor.rs: `dispatch` leaves a task that a node has, and that node with
-- its mailbox, as they are.
use gavel.Shared.{
  ℕ, ◌≡◌, refl, sym, ◌∙◌, subst, inl, inr, true, false, some, List, [], ◌∷◌, ok, arith, ==_iff,
  Bool-cases, Option-cases, Result-cases, contains,
}
use gavel.Shared.BTreeMap.{BTreeMap, get, insert, get-insert, values}
use gavel.Time.{Millis}
use gavel.Job.Machine.{Task, assign}
use gavel.Job.Lifecycle.{assigns}
use gavel.Supervisor.Table.{TaskProperty}
use gavel.Supervisor.State.{Supervisor, NodeEntry, Env, NodeInbox, persist_task, insert_task, emit}
use gavel.Supervisor.Leadership.{entries}
use gavel.Supervisor.Dispatch.{
  Round, return, continue, busy_nodes, candidates, start_job, start_job_if_queued, send_to, placed,
  put_back, place, round, dispatch_loop, dispatch,
}
use gavel.Supervisor.Table.{Tracks, call_task_ok}
use gavel.Supervisor.Tracked.{Tracked}
use gavel.Supervisor.Busy.{IsBusy, Tracks-IsBusy}
use gavel.Supervisor.Busy.{put_back_lem}
use gavel.Job.Machine.{transition_to, requeue}
use gavel.Job.State.{TaskState, can_transition_to}
use gavel.Shared.{◌==◌, unwrap_or}
use gavel.Supervisor.Dispatch.{is_active}
use gavel.Supervisor.Queueing.{Chooses, Continues, candidates_idle, round-Continues}

assign_queued :
    (t t' : Task) (node : ℕ) (now : Millis) → assign t node now ≡ ok t' → t.state ≡ TaskState.queued
unfolding assign transition_to can_transition_to
assign_queued t t' node now e = ground arith

-- A write under another key.
get-insert_other {ℓ} :
    {V : Type ℓ} (k j : ℕ) (v : V) (m : BTreeMap V)
    → (k == j) ≡ false
    → get j (insert k v m) ≡ get j m
get-insert_other k j v m h = get-insert k j v m ∙ rw h refl

apart : (j k : ℕ) → (j ≡ k → ⊥) → (j == k) ≡ false
apart j k h = elim (Bool-cases (j == k)) [
  | inl same ↦ absurd (h ((==_iff j k).0 same))
  | inr other ↦ other
]

module _ {Handle : Type 0} where
  get-send_to :
      (env : Env Handle) (nodes : BTreeMap (NodeEntry Handle)) (node id : ℕ) (message : NodeInbox)
      → (node == id) ≡ false
      → get id (send_to env nodes node message).0 ≡ get id nodes
  unfolding send_to
  get-send_to env nodes node id message h = elim (Option-cases (get node nodes)) [
    | inl e ↦ rw (e, send_to) refl
    | inr (entry, e) ↦ elim (Option-cases entry.handle) [
      | inl off ↦ rw (e, off, send_to) refl
      | inr (x, on) ↦ rw (e, on, send_to) (get-insert_other node id _ nodes h)
    ]
  ]

  start_job_if_queued-nodes :
      (s : Supervisor Handle) (job_id : ℕ) (now : Millis)
      → ((start_job_if_queued s job_id now).nodes ≡ s.nodes)
        × ((start_job_if_queued s job_id now).tasks ≡ s.tasks)
  unfolding start_job_if_queued start_job
  start_job_if_queued-nodes s job_id now = ground arith

  abbrev state_of : Round Handle → Supervisor Handle
  state_of (return t) = t
  state_of (continue t busy) = t

module _ {Handle : Type 0} (k : ℕ) (t : Task) (id : ℕ) (e : NodeEntry Handle)
    (active : is_active t.state ≡ true) (on : t.assigned_to ≡ some id) where
  abbrev pub Stays : Supervisor Handle → Type 0
  Stays s = (get k s.tasks ≡ some t) × (get id s.nodes ≡ some e)

  is_busy :
      (busy : List ℕ) (s : Supervisor Handle)
      → IsBusy busy s.tasks
      → Stays s
      → contains busy id ≡ true
  is_busy busy s b st = ground (arith, b k t st.0 active)

  waiting :
      (s : Supervisor Handle) (u : Task)
      → get k s.tasks ≡ some t
      → get k s.tasks ≡ some u
      → u.state ≡ TaskState.queued
      → ⊥
  waiting s u f g w = ground arith

  placed-Stays :
      (s : Supervisor Handle) (busy : List ℕ) (task : Task) (node : ℕ) (now : Millis)
      → (task.id == k) ≡ false
      → Stays s
      → Stays (state_of (placed s busy task node now))
  unfolding placed emit
  placed-Stays s busy task node now other st =
      let stored = persist_task (insert_task s task) task in
      let (nodes, tasks) = start_job_if_queued-nodes stored task.job_id now in
      rw (tasks, nodes) (get-insert_other task.id k task s.tasks other ∙ st.0, st.1)

  place-Stays :
      {P : TaskProperty} (env : Env Handle) (s : Supervisor Handle) (busy : List ℕ) (j : ℕ)
      (rest : List ℕ) (task : Task) (node : ℕ) (now : Millis)
      → get j s.tasks ≡ some task
      → contains busy node ≡ false
      → Tracks P s.tasks (j ∷ rest)
      → IsBusy busy s.tasks
      → Stays s
      → Stays (state_of (place env s busy rest task node now))
  unfolding place put_back
  place-Stays env s busy j rest task node now f idle h b st =
      let away : (node == id) ≡ false =
        apart node id (λ same. absurd (ground (arith, is_busy busy s b st))) in
      elim (Result-cases (assign task node now)) [
        | inl (x, g) ↦ rw (g, place) st
        | inr (task', g) ↦
            let (same_id, state) = call_task_ok task task' (assigns node) now g in
            let other : (task'.id == k) ≡ false = apart task'.id k (λ same.
              let at_k : j ≡ k = sym (same_id ∙ (h.kept j task f).id_eq) ∙ same in
              waiting s task st.0 (subst (λ i. get i s.tasks ≡ some task) at_k f)
                (assign_queued task task' node now g)) in
            let message = NodeInbox.assign task' in
            let kept = get-send_to env s.nodes node id message away ∙ st.1 in
            elim (Bool-cases ((send_to env s.nodes node message).1)) [
              | inl taken ↦
                  rw (g, taken, place)
                    (placed-Stays (record s { nodes = (send_to env s.nodes node message).0 }) busy
                      task' node now other (st.0, kept))
              | inr refused ↦
                  let back = unwrap_or (requeue task' now) task' in
                  let back_other : (back.id == k) ≡ false =
                    rw ((put_back_lem task' now state).0) other in
                  rw (g, refused, place)
                    (get-insert_other back.id k back s.tasks back_other ∙ st.0, kept)
            ]
      ]

  round-Stays :
      {P : TaskProperty} (env : Env Handle) (s : Supervisor Handle) (busy : List ℕ) (j : ℕ)
      (rest : List ℕ) (now : Millis)
      → Chooses env.select_node
      → Tracks P s.tasks (j ∷ rest)
      → IsBusy busy s.tasks
      → Stays s
      → Stays (state_of (round env s busy j rest now))
  unfolding round
  round-Stays env s busy j rest now c h b st = elim (Option-cases (get j s.tasks)) [
    | inl f ↦ rw (f, round) st
    | inr (task, f) ↦ elim (Result-cases (env.select_node task (candidates busy (entries s)))) [
      | inl (x, g) ↦ rw (f, g, round) st
      | inr (node, g) ↦
          let (n, m, same) = c task (candidates busy (entries s)) node g in
          let idle : contains busy node ≡ false =
            subst (λ i. contains busy i ≡ false) same (candidates_idle busy (entries s) n m) in
          rw (f, g, round) (place-Stays env s busy j rest task node now f idle h b st)
    ]
  ]

  dispatch_loop-Stays :
      {P : TaskProperty} (env : Env Handle) (s : Supervisor Handle) (busy queue : List ℕ)
      (now : Millis)
      → Chooses env.select_node
      → Tracks P s.tasks queue
      → IsBusy busy s.tasks
      → Stays s
      → Stays (dispatch_loop env s busy queue now)
  unfolding dispatch_loop
  dispatch_loop-Stays {P = P} env s busy [] now c h b st = st
  dispatch_loop-Stays {P = P} env s busy (j ∷ rest) now c h b st =
      go (round env s busy j rest now) (λ u b' p q r. dispatch_loop-Stays env u b' rest now c p q r)
        (round-Continues env s busy j rest now c h b) (round-Stays env s busy j rest now c h b st)
    where
      go :
          (r : Round Handle)
          → ((u : Supervisor Handle) (b' : List ℕ)
              → Tracks P u.tasks rest
              → IsBusy b' u.tasks
              → Stays u
              → Stays (dispatch_loop env u b' rest now))
          → Continues P rest r
          → Stays (state_of r)
          → Stays (elim r [ return u ↦ u | continue u busy' ↦ dispatch_loop env u busy' rest now ])
      go (return u) later kept still = still
      go (continue u busy') later kept still = later u busy' kept.0 kept.1 still

  -- A dispatch, with a scheduler that chooses among the nodes that it is given, on a table with the
  -- supervisor's invariant, leaves each assigned or running task as it is, and the registry's entry
  -- of its node too: nothing is put in the mailbox of a worker that has a task.
  pub dispatch-Stays :
      {P : TaskProperty} (env : Env Handle) (s : Supervisor Handle) (now : Millis)
      → Chooses env.select_node
      → Tracked P s
      → Stays s
      → Stays (dispatch env s now)
  unfolding dispatch
  dispatch-Stays env s now c h st =
      dispatch_loop-Stays env s (busy_nodes (values s.tasks)) s.queue now c h
        (Tracks-IsBusy s.tasks s.queue h) st
