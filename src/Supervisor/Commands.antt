-- ===== src/Supervisor/Commands.antt =====
-- crates/cluster-local/src/supervisor.rs: the commands and the reports, and `step`, one turn of the
-- loop of `run`.
use gavel.Shared.{
  ℕ, Bool, Option, none, some, List, [], ◌∷◌, ◌++◌, ◌⋯◌, Result, ok, err, take, map, if◌then◌else◌,
}
use mathlib.Core.List.{reverse}
use gavel.Shared.BTreeMap.{get, insert}
use gavel.Time.{Millis}
use gavel.Job.Spec.{JobSpec}
use gavel.Job.Machine.{Job, Task, TaskOutcome, start}
use gavel.Role.Defs.{Role}
use gavel.Node.Defs.{Node, NodeCapabilities, Heartbeat}
use gavel.Protocol.Defs.{RejectReason}
use gavel.Workload.Defs.{show_node}
use gavel.Supervisor.State.{
  Supervisor, NodeInbox, Env, Store, ClusterError, EventRecord, unknown_node, node_not_running,
  unavailable, job_created, persist_task, insert_task, emit, node_eq,
}
use gavel.Supervisor.Settle.{finish_task}
use gavel.Supervisor.Leadership.{entries}
use gavel.Supervisor.Dispatch.{dispatch, send_to}
use gavel.Supervisor.Health.{tick}
use gavel.Supervisor.Nodes
use gavel.Supervisor.Nodes.{Attachment, with_nodes}
use gavel.Supervisor.Views
use gavel.Supervisor.Views.{ClusterSnapshot, JobDetail, list_jobs, job_detail}

pub data Command (Handle : Type 0) : Type 0 where
  get_snapshot get_nodes : Command Handle
  get_node get_events get_jobs get_job : ℕ → Command Handle
  submit_job : JobSpec → Command Handle
  set_role : (node : ℕ) (role : Role) (enabled : Bool) → Command Handle
  stop_node start_node : ℕ → Command Handle
  pause_heartbeat : ℕ → Bool → Command Handle
  inject_failures set_task_delay : ℕ → ℕ → Command Handle
  attach_remote :
      (id : Option ℕ) (capabilities : NodeCapabilities) (handle : Handle) → Command Handle
  detach_remote : (id generation : ℕ) → Command Handle

pub data Reply : Type 0 where
  snapshot : ClusterSnapshot → Reply
  nodes : List Node → Reply
  node : Option Node → Reply
  events : List EventRecord → Reply
  jobs : List Job → Reply
  job : Option JobDetail → Reply
  submitted : Result ClusterError ℕ → Reply
  changed : Result ClusterError (Unit {0}) → Reply
  attached : Result RejectReason Attachment → Reply
  no_reply : Reply

pub data Report : Type 0 where
  heartbeat : Heartbeat → Report
  task_started : (node task : ℕ) → Report
  task_finished : (node task : ℕ) (outcome : TaskOutcome) → Report

module _ {Handle : Type 0} where
  -- The loop of `submit_job` over the new tasks.
  unfoldable pub enqueue_all : Supervisor Handle → List Task → Supervisor Handle
  enqueue_all s [] = s
  enqueue_all s (t ∷ ts) =
      enqueue_all (insert_task (record s { queue = s.queue ++ (t.id ∷ []) }) t) ts

  unfoldable pub accept_job :
      Env Handle → Supervisor Handle → Job → List Task → Millis → Supervisor Handle
  accept_job env s j ts now =
      dispatch env
        (emit (enqueue_all (record s { jobs = insert j.id j s.jobs }) ts) now (job_created j.id))
        now

  unfoldable pub submit :
      Env Handle
      → Store
      → Supervisor Handle
      → JobSpec
      → Millis
      → Supervisor Handle × Result ClusterError ℕ
  submit env store s spec now = elim (store.allocate spec now) [
    | err e ↦ (s, err (unavailable e))
    | ok (j, ts) ↦ elim (store.create_job j ts) [
      | err e ↦ (s, err (unavailable e))
      | ok _ ↦ (accept_job env s j ts now, ok j.id)
    ]
  ]

  unfoldable pub send_to_node :
      Env Handle
      → Supervisor Handle
      → ℕ
      → NodeInbox
      → Supervisor Handle × Result ClusterError (Unit {0})
  send_to_node env s id message = elim (get id s.nodes) [
    | none ↦ (s, err (unknown_node id))
    | some e ↦ elim e.handle [
      | none ↦ (s, err (node_not_running id))
      | some h ↦
          let (nodes', taken) = send_to env s.nodes id message in
          (
            with_nodes s nodes',
            if taken then ok tt else err (unavailable (show_node id ⋯ " is not responding")),
          )
    ]
  ]

  -- `if result.is_ok() { entry.heartbeat_paused = paused }`.
  unfoldable pub mark_paused :
      ℕ → Bool → Supervisor Handle × Result ClusterError (Unit {0}) → Supervisor Handle
  mark_paused id paused (s, err e) = s
  mark_paused id paused (s, ok _) = elim (get id s.nodes) [
    | none ↦ s
    | some e ↦ with_nodes s (insert id (record e { heartbeat_paused = paused }) s.nodes)
  ]

  unfoldable pub handle_command :
      Env Handle → Store → Supervisor Handle → Command Handle → Millis → Supervisor Handle × Reply
  handle_command env store s get_snapshot now = (s, Reply.snapshot (Views.snapshot env.config s))
  handle_command env store s get_nodes now = (s, nodes (map (λ e. e.node) (entries s)))
  handle_command env store s (get_node id) now =
      (s, node (elim (get id s.nodes) [ none ↦ none | some e ↦ some e.node ]))
  handle_command env store s (get_events limit) now = (s, events (take limit (reverse s.events)))
  handle_command env store s (get_jobs limit) now = (s, jobs (list_jobs s limit))
  handle_command env store s (get_job id) now = (s, job (job_detail s store id))
  handle_command env store s (submit_job spec) now =
      let (t, r) = submit env store s spec now in (t, submitted r)
  handle_command env store s (set_role id role enabled) now =
      let (t, r) = Nodes.set_role env s id role enabled now in (t, changed r)
  handle_command env store s (stop_node id) now =
      let (t, r) = Nodes.stop_node env s id now in (t, changed r)
  handle_command env store s (start_node id) now =
      let (t, r) = Nodes.start_node env s id now in (t, changed r)
  handle_command env store s (Command.pause_heartbeat id paused) now =
      let sent = send_to_node env s id (NodeInbox.pause_heartbeat paused) in
      (mark_paused id paused sent, changed sent.1)
  handle_command env store s (Command.inject_failures id n) now =
      let (t, r) = send_to_node env s id (NodeInbox.inject_failures n) in (t, changed r)
  handle_command env store s (set_task_delay id ms) now =
      let (t, r) = send_to_node env s id (NodeInbox.set_delay ms) in (t, changed r)
  handle_command env store s (attach_remote id capabilities handle) now =
      let (t, r) = Nodes.attach_remote env s id capabilities handle now in (t, attached r)
  handle_command env store s (detach_remote id generation) now =
      (Nodes.detach_remote env s id generation now, no_reply)

  -- The arm of a heartbeat: stamped with the supervisor's own clock.
  unfoldable pub note_heartbeat : Supervisor Handle → Heartbeat → Millis → Supervisor Handle
  note_heartbeat s hb now = elim (get hb.node s.nodes) [
    | none ↦ s
    | some e ↦ with_nodes s (
        insert hb.node (record e { node = record (e.node) { last_seen = now; load = hb.load } })
          s.nodes)
  ]

  unfoldable pub note_started : Supervisor Handle → ℕ → ℕ → Millis → Supervisor Handle
  note_started s n task_id now = elim (get task_id s.tasks) [
    | none ↦ s
    | some task ↦
        if node_eq task.assigned_to (some n)
        then elim (start task now) [
          | err _ ↦ s
          | ok task' ↦ persist_task (record s { tasks = insert task_id task' s.tasks }) task'
        ]
        else s
  ]

  unfoldable pub handle_report :
      Env Handle → Supervisor Handle → Report → Millis → Supervisor Handle
  handle_report env s (heartbeat hb) now = note_heartbeat s hb now
  handle_report env s (task_started n task_id) now = note_started s n task_id now
  handle_report env s (task_finished n task_id outcome) now =
      dispatch env (finish_task env.config s n task_id outcome now) now

-- What wakes the loop of `run`: a command (with what the store answers), a report or the tick.
pub data Input (Handle : Type 0) : Type 0 where
  command : Store → Command Handle → Input Handle
  report : Report → Input Handle
  ticked : Input Handle

module _ {Handle : Type 0} where
  unfoldable pub step : Env Handle → Supervisor Handle → Input Handle → Millis → Supervisor Handle
  step env s (command store c) now = (handle_command env store s c now).0
  step env s (report r) now = handle_report env s r now
  step env s ticked now = tick env s now
