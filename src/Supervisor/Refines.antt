-- ===== src/Supervisor/Refines.antt =====
-- crates/cluster-local/src/supervisor.rs against crates/cluster-core/src/job.rs: whatever the supervisor
-- does to a task of its table is a sequence of calls of Task's methods.
use gavel.Shared.{
  ℕ, ◌≡◌, refl, ap, ◌∙◌, ◌⊎◌, inl, inr, some, List, [], ◌∷◌, ◌++◌, unwrap_or, All, In, ok,
}
use gavel.Shared.BTreeMap.{BTreeMap, get}
use gavel.Time.{Millis}
use gavel.Job.Spec.{JobSpec}
use gavel.Job.Machine.{Job, Task}
use gavel.Job.Lifecycle.{TaskCall, call_task, run_task}
use gavel.Supervisor.State.{Supervisor, Env, Store}
use gavel.Supervisor.Commands.{
  Command, get_snapshot, get_nodes, get_node, get_events, get_jobs, get_job, submit_job,
  set_task_delay, Input, command, report, ticked,
}
use gavel.Supervisor.Table.{TaskProperty, Anything, IsClosed}
use gavel.Supervisor.Tracked.{Tracked}
use gavel.Supervisor.Queueing.{Chooses}
use gavel.Supervisor.Steps.{IsNew, Allocated, Answered, run, run-Tracked}

module _ {Handle : Type 0} where
  -- One of the inputs submits a job, and the task is one that the store then gave out for the job.
  abbrev pub Given : List (Input Handle × Millis) → Task → Type 0
  Given inputs t =
      (store : Store) × (spec : JobSpec) × (now : Millis) × (j : Job) × (ts : List Task) × In
        (command store (submit_job spec), now) inputs
      × (store.allocate spec now ≡ ok (j, ts))
      × In t ts

  -- The task came about by calls of Task's methods, from what the table had under the key to begin
  -- with, or from a new task that the store gave out under that id for a job of the inputs.
  abbrev pub Came : BTreeMap Task → List (Input Handle × Millis) → TaskProperty
  Came before inputs k u =
      (t : Task) × (cs : List (TaskCall × Millis)) × ((get k before ≡ some t)
        ⊎ ((t.id ≡ k) × IsNew t × Given inputs t))
      × (run_task t cs ≡ u)

run_task-append :
    (t : Task) (cs : List (TaskCall × Millis)) (c : TaskCall) (at : Millis)
    → run_task t (cs ++ ((c, at) ∷ [])) ≡ unwrap_or (call_task (run_task t cs) c at) (run_task t cs)
run_task-append t [] c at = refl
run_task-append t ((d, then) ∷ cs) c at = run_task-append (unwrap_or (call_task t d then) t) cs c at

module _ {Handle : Type 0} (before : BTreeMap Task) (inputs : List (Input Handle × Millis)) where
  Came-IsClosed : IsClosed (Came before inputs)
  Came-IsClosed k u c at (t, cs, origin, e) = (
    t,
    cs ++ ((c, at) ∷ []),
    origin,
    run_task-append t cs c at ∙ ap (λ v. unwrap_or (call_task v c at) v) e,
  )

  IsNew-Came :
      (ts : List Task)
      → ((t : Task) → In t ts → Given inputs t)
      → All (λ t. IsNew t × Anything t.id t) ts
      → All (λ t. IsNew t × Came before inputs t.id t) ts
  IsNew-Came [] given a = tt
  IsNew-Came (t ∷ ts) given a = (
    (a.0.0, (t, [], inr (refl, a.0.0, given t (inl refl)), refl)),
    IsNew-Came ts (λ u m. given u (inr m)) a.1,
  )

  Allocated-Came :
      (store : Store) (c : Command Handle) (now : Millis)
      → In (command store c, now) inputs
      → Allocated Anything store c now
      → Allocated (Came before inputs) store c now
  Allocated-Came store get_snapshot now m a = tt
  Allocated-Came store get_nodes now m a = tt
  Allocated-Came store (get_node id) now m a = tt
  Allocated-Came store (get_events limit) now m a = tt
  Allocated-Came store (get_jobs limit) now m a = tt
  Allocated-Came store (get_job id) now m a = tt
  Allocated-Came store (submit_job spec) now m a =
      λ j ts e. IsNew-Came ts (λ t u. (store, spec, now, j, ts, m, e, u)) (a j ts e)
  Allocated-Came store (Command.set_role id role enabled) now m a = tt
  Allocated-Came store (Command.stop_node id) now m a = tt
  Allocated-Came store (Command.start_node id) now m a = tt
  Allocated-Came store (Command.pause_heartbeat id paused) now m a = tt
  Allocated-Came store (Command.inject_failures id n) now m a = tt
  Allocated-Came store (set_task_delay id ms) now m a = tt
  Allocated-Came store (Command.attach_remote id capabilities handle) now m a = tt
  Allocated-Came store (Command.detach_remote id generation) now m a = tt

  Answered-Came :
      (input : Input Handle) (now : Millis)
      → In (input, now) inputs
      → Answered Anything input now
      → Answered (Came before inputs) input now
  Answered-Came (command store c) now m a = Allocated-Came store c now m a
  Answered-Came (report r) now m a = tt
  Answered-Came ticked now m a = tt

  All-Came :
      (some_inputs : List (Input Handle × Millis))
      → ((i : Input Handle × Millis) → In i some_inputs → In i inputs)
      → All (λ i. Answered Anything i.0 i.1) some_inputs
      → All (λ i. Answered (Came before inputs) i.0 i.1) some_inputs
  All-Came [] within a = tt
  All-Came ((input, now) ∷ rest) within a = (
    Answered-Came input now (within (input, now) (inl refl)) a.0,
    All-Came rest (λ i m. within i (inr m)) a.1,
  )

module _ {Handle : Type 0} where
  start-Came :
      (s : Supervisor Handle) (inputs : List (Input Handle × Millis))
      → Tracked Anything s
      → Tracked (Came s.tasks inputs) s
  start-Came s inputs h = record {
    closed = Came-IsClosed s.tasks inputs;
    sorted = h.sorted;
    kept = λ k t e.
        let kept = h.kept k t e in
        record {
          id_eq = kept.id_eq;
          consistent = kept.consistent;
          holds = (t, [], inl e, refl);
          waits = kept.waits;
        };
    alone = h.alone;
  }

  -- Whatever commands, reports and ticks wake the supervisor, from a state with the invariant, with a
  -- scheduler that chooses among the nodes that it is given and a store that gives out new tasks for
  -- a job: each task of the table is then what some sequence of calls of Task's methods, refused ones
  -- included, makes of the task that stood under its id at the start, or of a new task that the store
  -- gave out with that id when one of the commands submitted a job.
  pub run-Came :
      (env : Env Handle) (s : Supervisor Handle) (inputs : List (Input Handle × Millis))
      → Chooses env.select_node
      → All (λ i. Answered Anything i.0 i.1) inputs
      → Tracked Anything s
      → (k : ℕ) (u : Task) → get k (run env s inputs).tasks ≡ some u
      → Came s.tasks inputs k u
  run-Came env s inputs c a h k u e =
      let kept = All-Came s.tasks inputs inputs (λ i m. m) a in
      ((run-Tracked env s inputs c kept (start-Came s inputs h)).kept k u e).holds
