-- ===== src/Supervisor/Steps.antt =====
-- crates/cluster-local/src/supervisor.rs: no turn of the loop loses a waiting task, whatever wakes it.
use gavel.Shared.{
  ℕ, ◌≡◌, refl, ◌∙◌, subst, inl, inr, Bool, true, some, List, [], ◌∷◌, ◌++◌, Result, ok, arith,
  Bool-cases, Option-cases, Result-cases, All, In-append_left, In-append_right,
}
use gavel.Shared.BTreeMap.{get, insert}
use gavel.Time.{Millis}
use gavel.Job.Spec.{JobSpec}
use gavel.Job.State.{TaskState}
use gavel.Job.Machine.{Job, Task, start}
use gavel.Job.Lifecycle.{IsConsistent, starts}
use gavel.Node.Defs.{Heartbeat}
use gavel.Supervisor.Table.{TaskProperty}
use gavel.Supervisor.State.{
  ClusterError, Supervisor, Env, Store, NodeInbox, insert_task, emit, node_eq,
}
use gavel.Supervisor.Settle.{finish_task}
use gavel.Supervisor.Dispatch.{is_active}
use gavel.Supervisor.Commands.{
  Command, get_snapshot, get_nodes, get_node, get_events, get_jobs, get_job, submit_job,
  set_task_delay, Report, heartbeat, task_started, task_finished, Input, command, report, ticked,
  enqueue_all, accept_job, submit, send_to_node, mark_paused, handle_command, note_heartbeat,
  note_started, handle_report, step,
}
use gavel.Supervisor.Table.{Tracks, Tracks-insert, Tracks-queue, Tracks-call_task, call_task_ok}
use gavel.Supervisor.Tracked.{Tracked, Same, Tracked-Same, finish_task-Tracked}
use gavel.Supervisor.Queueing.{Chooses, dispatch-Tracked}
use gavel.Supervisor.Upkeep.{
  tick-Tracked, detach_remote-Tracked, stop_node-Tracked, start_node-Tracked,
}
use gavel.Supervisor.Joins.{attach_remote-Tracked, set_role-Tracked}

-- A task as `Task::new` makes it: consistent, and waiting.
abbrev pub IsNew : Task → Type 0
IsNew t = IsConsistent t × (t.state ≡ TaskState.queued)

-- The tasks that the store gives out for a job are new and have the property.
abbrev pub Allocates : TaskProperty → Store → JobSpec → Millis → Type 0
Allocates P store spec at =
    (j : Job) (ts : List Task)
    → store.allocate spec at ≡ ok (j, ts)
    → All (λ t. IsNew t × P t.id t) ts

new_inactive : (t : Task) → t.state ≡ TaskState.queued → is_active t.state ≡ true → ⊥
new_inactive t e a = ground arith

module _ {Handle : Type 0} where
  enqueue_all-Tracked :
      {P : TaskProperty} (s : Supervisor Handle) (ts : List Task)
      → All (λ t. IsNew t × P t.id t) ts
      → Tracked P s
      → Tracked P (enqueue_all s ts)
  unfolding enqueue_all
  enqueue_all-Tracked s [] c h = h
  enqueue_all-Tracked s (t ∷ ts) c h =
      enqueue_all-Tracked (insert_task (record s { queue = s.queue ++ (t.id ∷ []) }) t) ts c.1 (
        Tracks-insert s.tasks (s.queue ++ (t.id ∷ [])) t
          (Tracks-queue s.tasks s.queue (s.queue ++ (t.id ∷ []))
            (λ k m. In-append_left k s.queue (t.id ∷ []) m) h)
          (record {
            id_eq = refl;
            consistent = c.0.0.0;
            holds = c.0.1;
            waits = λ w. In-append_right t.id s.queue (t.id ∷ []) (inl refl);
          })
          (λ j u g active active' node. absurd (new_inactive t c.0.0.1 active')))

  submit-Tracked :
      {P : TaskProperty} (env : Env Handle) (store : Store) (s : Supervisor Handle) (spec : JobSpec)
      (now : Millis)
      → Chooses env.select_node
      → Allocates P store spec now
      → Tracked P s
      → Tracked P (submit env store s spec now).0
  unfolding submit accept_job emit
  submit-Tracked env store s spec now c a h = elim (Result-cases (store.allocate spec now)) [
    | inl (x, e) ↦ rw (e, submit) h
    | inr ((j, ts), e) ↦ elim (Result-cases (store.create_job j ts)) [
      | inl (x, f) ↦ rw (e, f, submit) h
      | inr (x, f) ↦
          rw (e, f, submit)
            (dispatch-Tracked env _ now c
              (enqueue_all-Tracked (record s { jobs = insert j.id j s.jobs }) ts (a j ts e) h))
    ]
  ]

  send_to_node-Same :
      (env : Env Handle) (s : Supervisor Handle) (id : ℕ) (message : NodeInbox)
      → Same s (send_to_node env s id message).0
  unfolding send_to_node
  send_to_node-Same env s id message = ground arith

  mark_paused-Same :
      (id : ℕ) (paused : Bool) (s : Supervisor Handle) (r : Result ClusterError (Unit {0}))
      → Same s (mark_paused id paused (s, r))
  unfolding mark_paused
  mark_paused-Same id paused s r = ground arith

  sent-Tracked :
      {P : TaskProperty} (env : Env Handle) (s : Supervisor Handle) (id : ℕ) (message : NodeInbox)
      → Tracked P s
      → Tracked P (send_to_node env s id message).0
  sent-Tracked env s id message h =
      Tracked-Same s (send_to_node env s id message).0 (send_to_node-Same env s id message) h

  -- What the store of a command may answer.
  abbrev pub Allocated : TaskProperty → Store → Command Handle → Millis → Type 0
  Allocated P store (submit_job spec) now = Allocates P store spec now
  Allocated P store _ now = Unit {0}

  handle_command-Tracked :
      {P : TaskProperty} (env : Env Handle) (store : Store) (s : Supervisor Handle)
      (c : Command Handle) (now : Millis)
      → Chooses env.select_node
      → Allocated P store c now
      → Tracked P s
      → Tracked P (handle_command env store s c now).0
  unfolding handle_command
  handle_command-Tracked env store s get_snapshot now c a h = h
  handle_command-Tracked env store s get_nodes now c a h = h
  handle_command-Tracked env store s (get_node id) now c a h = h
  handle_command-Tracked env store s (get_events limit) now c a h = h
  handle_command-Tracked env store s (get_jobs limit) now c a h = h
  handle_command-Tracked env store s (get_job id) now c a h = h
  handle_command-Tracked env store s (submit_job spec) now c a h =
      submit-Tracked env store s spec now c a h
  handle_command-Tracked env store s (Command.set_role id role enabled) now c a h =
      set_role-Tracked env s id role enabled now h
  handle_command-Tracked env store s (Command.stop_node id) now c a h =
      stop_node-Tracked env s id now c h
  handle_command-Tracked env store s (Command.start_node id) now c a h =
      start_node-Tracked env s id now c h
  handle_command-Tracked env store s (Command.pause_heartbeat id paused) now c a h =
      let sent = send_to_node env s id (NodeInbox.pause_heartbeat paused) in
      Tracked-Same sent.0 (mark_paused id paused sent) (mark_paused-Same id paused sent.0 sent.1)
        (sent-Tracked env s id (NodeInbox.pause_heartbeat paused) h)
  handle_command-Tracked env store s (Command.inject_failures id n) now c a h =
      sent-Tracked env s id (NodeInbox.inject_failures n) h
  handle_command-Tracked env store s (set_task_delay id ms) now c a h =
      sent-Tracked env s id (NodeInbox.set_delay ms) h
  handle_command-Tracked env store s (Command.attach_remote id capabilities handle) now c a h =
      attach_remote-Tracked env s id capabilities handle now c h
  handle_command-Tracked env store s (Command.detach_remote id generation) now c a h =
      detach_remote-Tracked env s id generation now c h

  note_started-Tracked :
      {P : TaskProperty} (s : Supervisor Handle) (n k : ℕ) (now : Millis)
      → Tracked P s
      → Tracked P (note_started s n k now)
  unfolding note_started
  note_started-Tracked {P = P} s n k now h = elim (Option-cases (get k s.tasks)) [
    | inl e ↦ rw (e, note_started) h
    | inr (task, e) ↦ elim (Bool-cases (node_eq task.assigned_to (some n))) [
      | inr other ↦ rw (e, other, note_started) h
      | inl own ↦ elim (Result-cases (start task now)) [
        | inl (x, f) ↦ rw (e, own, f, note_started) h
        | inr (task', f) ↦
            let at_k : task'.id ≡ k =
              (call_task_ok task task' starts now f).0 ∙ (h.kept k task e).id_eq in
            rw (e, own, f, note_started)
              (subst (λ j. Tracks P (insert j task' s.tasks) s.queue) at_k
                (Tracks-call_task s.tasks s.queue k task task' starts now h e f refl
                  (λ w. absurd (ground arith))))
      ]
    ]
  ]

  note_heartbeat-Same :
      (s : Supervisor Handle) (hb : Heartbeat) (now : Millis) → Same s (note_heartbeat s hb now)
  unfolding note_heartbeat
  note_heartbeat-Same s hb now = ground arith

  handle_report-Tracked :
      {P : TaskProperty} (env : Env Handle) (s : Supervisor Handle) (r : Report) (now : Millis)
      → Chooses env.select_node
      → Tracked P s
      → Tracked P (handle_report env s r now)
  unfolding handle_report
  handle_report-Tracked env s (heartbeat hb) now c h =
      Tracked-Same s (note_heartbeat s hb now) (note_heartbeat-Same s hb now) h
  handle_report-Tracked env s (task_started n k) now c h = note_started-Tracked s n k now h
  handle_report-Tracked env s (task_finished n k outcome) now c h =
      dispatch-Tracked env (finish_task env.config s n k outcome now) now c
        (finish_task-Tracked env.config s n k outcome now h)

  -- What wakes the loop, and what its store may answer.
  abbrev pub Answered : TaskProperty → Input Handle → Millis → Type 0
  Answered P (command store c) now = Allocated P store c now
  Answered P (report r) now = Unit {0}
  Answered P ticked now = Unit {0}

  step-Tracked :
      {P : TaskProperty} (env : Env Handle) (s : Supervisor Handle) (input : Input Handle)
      (now : Millis)
      → Chooses env.select_node
      → Answered P input now
      → Tracked P s
      → Tracked P (step env s input now)
  unfolding step
  step-Tracked env s (command store k) now c a h = handle_command-Tracked env store s k now c a h
  step-Tracked env s (report r) now c a h = handle_report-Tracked env s r now c h
  step-Tracked env s ticked now c a h = tick-Tracked env s now c h

  -- The loop of `run`, over what wakes it.
  abbrev pub run : Env Handle → Supervisor Handle → List (Input Handle × Millis) → Supervisor Handle
  run env s [] = s
  run env s ((input, now) ∷ rest) = run env (step env s input now) rest

  -- Whatever commands, reports and ticks wake the supervisor, with a scheduler that chooses among the
  -- nodes that it is given and a store that gives out new tasks for a job: if the task table is a map in which
  -- each task stands under its own id, holds what its state says, has a property that Task's methods
  -- keep and new tasks have, and is in the queue while it waits, and no two tasks that are assigned
  -- or running have the same node, then all this is so afterwards.
  pub run-Tracked :
      {P : TaskProperty} (env : Env Handle) (s : Supervisor Handle)
      (inputs : List (Input Handle × Millis))
      → Chooses env.select_node
      → All (λ i. Answered P i.0 i.1) inputs
      → Tracked P s
      → Tracked P (run env s inputs)
  run-Tracked env s [] c a h = h
  run-Tracked env s ((input, now) ∷ rest) c a h =
      run-Tracked env (step env s input now) rest c a.1 (step-Tracked env s input now c a.0 h)
