-- ===== src/Supervisor/Dispatch.antt =====
-- crates/cluster-local/src/supervisor.rs: `dispatch`, which places queued tasks on idle nodes.
use gavel.Shared.{
  ℕ, Bool, true, false, not, ◌&&◌, none, some, List, [], ◌∷◌, ok, err, if◌then◌else◌, filter, map,
  contains, is_some, unwrap_or,
}
use gavel.Shared.BTreeMap.{BTreeMap, get, insert, values}
use gavel.Time.{Millis}
use gavel.Job.State.{JobState, TaskState, job_state_eq}
use gavel.Job.Machine.{Job, Task, assign, requeue, job_transition_to}
use gavel.Node.Defs.{Node, is_schedulable}
use gavel.Supervisor.State.{
  Supervisor, NodeEntry, Env, NodeInbox, Write, task_assigned, push_write, persist_task,
  persist_job, insert_task, emit,
}
use gavel.Supervisor.Settle.{insert_job}
use gavel.Supervisor.Leadership.{entries}

abbrev pub is_active : TaskState → Bool
is_active TaskState.assigned = true
is_active TaskState.running = true
is_active _ = false

-- `filter_map(|t| t.assigned_to)` over the active tasks.
unfoldable pub busy_nodes : List Task → List ℕ
busy_nodes [] = []
busy_nodes (t ∷ ts) =
    let rest = busy_nodes ts in
    if is_active t.state then elim t.assigned_to [ none ↦ rest | some n ↦ n ∷ rest ] else rest

-- How a round of the loop ends: with a `return`, or with another round over the rest of the queue.
pub data Round (Handle : Type 0) : Type 0 where
  return : Supervisor Handle → Round Handle
  continue : Supervisor Handle → List ℕ → Round Handle

module _ {Handle : Type 0} where
  unfoldable pub is_candidate : List ℕ → NodeEntry Handle → Bool
  is_candidate busy e = is_some e.handle && is_schedulable e.node && not (contains busy e.node.id)

  unfoldable pub candidates : List ℕ → List (NodeEntry Handle) → List Node
  candidates busy es = map (λ e. e.node) (filter (is_candidate busy) es)

  unfoldable pub start_job : Supervisor Handle → ℕ → Job → Millis → Supervisor Handle
  start_job s job_id job now =
      if job_state_eq job.state JobState.queued
      then elim (job_transition_to job JobState.running now) [
        | err _ ↦ s
        | ok started ↦ persist_job (insert_job s job_id started) started
      ]
      else s

  unfoldable pub start_job_if_queued : Supervisor Handle → ℕ → Millis → Supervisor Handle
  start_job_if_queued s job_id now = elim (get job_id s.jobs) [
    | none ↦ s
    | some job ↦ start_job s job_id job now
  ]

  -- `try_send` to the chosen node: the nodes with its mailbox as the call leaves it, and whether the
  -- message was taken.
  unfoldable pub send_to :
      Env Handle → BTreeMap (NodeEntry Handle) → ℕ → NodeInbox → BTreeMap (NodeEntry Handle) × Bool
  send_to env nodes id message = elim (get id nodes) [
    | none ↦ (nodes, false)
    | some e ↦ elim e.handle [
      | none ↦ (nodes, false)
      | some h ↦
          let (h', taken) = env.try_send h message in
          (insert id (record e { handle = some h' }) nodes, taken)
    ]
  ]

  -- The message was taken.
  unfoldable pub placed : Supervisor Handle → List ℕ → Task → ℕ → Millis → Round Handle
  placed s busy task chosen now =
      let stored = persist_task (insert_task s task) task in
      let started = start_job_if_queued stored task.job_id now in
      continue (emit started now (task_assigned task.id chosen)) (chosen ∷ busy)

  -- It was refused: the task goes back to the front, and the pass ends.
  unfoldable pub put_back : Supervisor Handle → List ℕ → Task → Millis → Round Handle
  put_back s rest task now =
      let task' = unwrap_or (requeue task now) task in
      return
        (push_write (record (insert_task s task') { queue = task'.id ∷ rest }) (Write.saved task'))

  -- A round with the front of the queue popped, for a task of the table and a node for it.
  unfoldable pub place :
      Env Handle → Supervisor Handle → List ℕ → List ℕ → Task → ℕ → Millis → Round Handle
  place env s busy rest task chosen now = elim (assign task chosen now) [
    | err _ ↦ continue s busy
    | ok task' ↦
        let (nodes', taken) = send_to env s.nodes chosen (NodeInbox.assign task') in
        let sent = record s { nodes = nodes' } in
        if taken then placed sent busy task' chosen now else put_back sent rest task' now
  ]

  -- The loop: `id ∷ rest` is the queue that the round begins with.
  unfoldable pub round :
      Env Handle → Supervisor Handle → List ℕ → ℕ → List ℕ → Millis → Round Handle
  round env s busy id rest now = elim (get id s.tasks) [
    | none ↦ continue s busy
    | some task ↦ elim (env.select_node task (candidates busy (entries s))) [
      | err _ ↦ return (record s { queue = id ∷ rest })
      | ok chosen ↦ place env s busy rest task chosen now
    ]
  ]

  unfoldable pub dispatch_loop :
      Env Handle → Supervisor Handle → List ℕ → List ℕ → Millis → Supervisor Handle
  dispatch_loop env s busy [] now = record s { queue = [] }
  dispatch_loop env s busy (id ∷ rest) now = elim (round env s busy id rest now) [
    | return t ↦ t
    | continue t busy' ↦ dispatch_loop env t busy' rest now
  ]

  unfoldable pub dispatch : Env Handle → Supervisor Handle → Millis → Supervisor Handle
  dispatch env s now = dispatch_loop env s (busy_nodes (values s.tasks)) s.queue now
