-- ===== src/Supervisor/State.antt =====
-- crates/cluster-local/src/supervisor.rs: the state, what it writes and emits; with the events of
-- crates/cluster-core/src/event.rs, the errors of error.rs, crates/cluster-local/src/config.rs, and
-- the writes of persistence.rs. A handler takes the instant at which it runs and, where it asks the
-- store, what the store answers. Logs and telemetry counters but `retried` are left out.
use gavel.Shared.{
  ℕ, ◌+◌, ◌%◌, Bool, true, false, Option, none, some, List, [], ◌∷◌, ◌++◌, String, Result, ◌==◌,
}
use gavel.Shared.BTreeMap.{BTreeMap, insert}
use gavel.Time.{Millis}
use gavel.Job.Spec.{JobSpec}
use gavel.Job.State.{FailureReason}
use gavel.Job.Machine.{Job, Task, TaskAttempt, new_attempt}
use gavel.Role.Defs.{Role, RoleSet, RolePolicies}
use gavel.Node.Defs.{Node, NodeCapabilities, HealthPolicy}
use gavel.Scheduler.Defs.{SchedulerError}

pub data ClusterEvent : Type 0 where
  node_joined node_left node_unhealthy node_recovered : (node : ℕ) → ClusterEvent
  role_assigned role_removed : (node : ℕ) (role : Role) → ClusterEvent
  leader_elected leader_lost : (node : ℕ) → ClusterEvent
  job_created job_completed job_failed : (job : ℕ) → ClusterEvent
  task_assigned task_completed : (task node : ℕ) → ClusterEvent
  task_failed : (task : ℕ) (node : Option ℕ) (reason : FailureReason) → ClusterEvent
  task_requeued : (task : ℕ) → ClusterEvent

pub record EventRecord : Type 0 where
  pub seq : ℕ
  pub at : Millis
  pub event : ClusterEvent

pub data ClusterError : Type 0 where
  unknown_node node_already_running node_not_running : (node : ℕ) → ClusterError
  unavailable : String → ClusterError

-- What goes to the persistence queue, and `saved`: a `save_task` that is awaited on the spot.
pub data Write : Type 0 where
  job : Job → Write
  task : Task → Write
  failure : TaskAttempt → Write
  event : EventRecord → Write
  roles : (node : ℕ) (roles : RoleSet) (at : Millis) → Write
  saved : Task → Write

-- crates/cluster-local/src/node.rs: what a node's mailbox carries.
pub data NodeInbox : Type 0 where
  assign : Task → NodeInbox
  pause_heartbeat : Bool → NodeInbox
  inject_failures : ℕ → NodeInbox
  set_delay : ℕ → NodeInbox

pub record RemoteNode : Type 0 where
  pub id : ℕ
  pub capabilities : NodeCapabilities

-- The fields of `LocalClusterConfig` that the supervisor reads.
pub record Config : Type 0 where
  pub node_count : ℕ
  pub health : HealthPolicy
  pub policies : RolePolicies
  pub event_buffer : ℕ
  pub job_buffer : ℕ
  pub max_task_attempts : ℕ
  pub profiles : List NodeCapabilities
  pub remote_nodes : List RemoteNode

pub data NodeKind : Type 0 where
  simulated : NodeKind
  remote : (declared : Bool) → NodeKind

-- A handle is tokio's: its mailbox takes a message or refuses it (`try_send`).
pub record NodeEntry (Handle : Type 0) : Type 0 where
  pub node : Node
  pub kind : NodeKind
  pub handle : Option Handle
  pub heartbeat_paused : Bool
  pub generation : ℕ

-- What the supervisor is composed with: its configuration, the scheduler, the elector, the mailboxes.
pub record Env (Handle : Type 0) : Type 0 where
  pub config : Config
  pub select_node : Task → List Node → Result SchedulerError ℕ
  pub elect : List Node → Option ℕ
  pub try_send : Handle → NodeInbox → Handle × Bool
  pub spawn_node : ℕ → NodeCapabilities → Handle

-- What the store answers when a handler asks it: crates/cluster-core/src/persist.rs.
pub record Store : Type 0 where
  pub allocate : JobSpec → Millis → Result String (Job × List Task)
  pub create_job : Job → List Task → Result String (Unit {0})
  pub job : ℕ → Option Job
  pub tasks_for_job : ℕ → List Task
  pub failures_for_job : ℕ → List TaskAttempt
  pub load_node_roles : Option (List (ℕ × RoleSet))
  pub recent_jobs : ℕ → Option (List Job)
  pub unfinished_jobs_page : Option ℕ → ℕ → Option (List (Job × List Task))
  pub last_seq : Option ℕ

pub record Supervisor (Handle : Type 0) : Type 0 where
  pub nodes : BTreeMap (NodeEntry Handle)
  pub jobs : BTreeMap Job
  pub tasks : BTreeMap Task
  pub queue : List ℕ
  pub events : List EventRecord
  pub event_seq : ℕ
  pub leader : Option ℕ
  pub gateway : Option ℕ
  pub writes : List Write
  pub retried : ℕ

module _ {Handle : Type 0} where
  abbrev pub push_write : Supervisor Handle → Write → Supervisor Handle
  push_write s w = record s { writes = s.writes ++ (w ∷ []) }

  abbrev pub persist_task : Supervisor Handle → Task → Supervisor Handle
  persist_task s t = push_write s (Write.task t)

  abbrev pub persist_job : Supervisor Handle → Job → Supervisor Handle
  persist_job s j = push_write s (Write.job j)

  abbrev pub persist_roles : Supervisor Handle → ℕ → RoleSet → Millis → Supervisor Handle
  persist_roles s node set now = push_write s (Write.roles node set now)

  abbrev pub insert_task : Supervisor Handle → Task → Supervisor Handle
  insert_task s t = record s { tasks = insert t.id t s.tasks }

  unfoldable pub emit : Supervisor Handle → Millis → ClusterEvent → Supervisor Handle
  emit s now e =
      let seq = (s.event_seq + 1) % 18446744073709551616 in
      let r : EventRecord = record { seq = seq; at = now; event = e } in
      record s {
        event_seq = seq;
        writes = s.writes ++ (Write.event r ∷ []);
        events = s.events ++ (r ∷ []);
      }

  unfoldable pub record_failure :
      Supervisor Handle → Task → FailureReason → String → Millis → Supervisor Handle
  record_failure s t reason detail now =
      push_write s (Write.failure (new_attempt t reason detail now))

-- The derived `==` of `Option<NodeId>`.
abbrev pub node_eq : Option ℕ → Option ℕ → Bool
node_eq none none = true
node_eq (some a) (some b) = a == b
node_eq _ _ = false
