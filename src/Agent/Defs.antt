-- ===== src/Agent/Defs.antt =====
-- crates/cluster-core/src/agent.rs. `&mut self` methods return the new agent and the actions.
use gavel.Shared.{
  ℕ, ◌+◌, ◌-◌, max, min, Bool, true, false, not, ◌&&◌, Option, none, some, List, [], ◌∷◌, ◌++◌,
  String, ◌⋯◌, show, ltb, leb, ◌==◌, if◌then◌else◌, saturating_add, u32_max, u64_max, length,
  is_some,
}
use gavel.Time.{Millis, since, plus_ms}
use gavel.Job.Spec.{TaskSpec, describe}
use gavel.Job.State.{FailureReason}
use gavel.Job.Machine.{TaskOutcome}
use gavel.Node.Defs.{NodeCapabilities, NodeLoad}
use gavel.Workload.Defs.{TaskWork, Workload, run_task, count_primes, primes_output}
use gavel.Protocol.Defs.{
  Bytes, WireTaskSpec, NodeMessage, SupervisorMessage, hello, heartbeat, task_produced,
  task_started, task_finished, welcome, rejected, pause_heartbeat, inject_failures, set_delay,
  shutdown, protocol_version, max_artifact, new_artifact, input, to_task,
}

pub data Action : Type 0 where
  send : NodeMessage → Action
  wake_in : ℕ → Action
  disconnect : Action

abbrev pub compute_slice : ℕ
compute_slice = 8000

pub data Work : Type 0 where
  ready : (output : String) → Work
  produced : (output : String) (artifact : Bytes) → Work
  primes : (node start stop cursor found : ℕ) → Work

pub record Running : Type 0 where
  pub id : ℕ
  pub ready_at : Millis
  pub work : Work

pub record Agent : Type 0 where
  pub id : Option ℕ
  pub capabilities : NodeCapabilities
  pub heartbeat_interval_ms : ℕ
  pub next_heartbeat : Millis
  pub running : Option Running
  pub heartbeat_paused : Bool
  pub pending_failures : ℕ
  pub extra_delay_ms : ℕ
  pub free_memory_bytes : ℕ
  pub joined : Bool
  pub token : Option String
  pub workload : Option Workload

unfoldable pub new_agent : Option ℕ → NodeCapabilities → ℕ → Agent
new_agent id capabilities heartbeat_interval_ms = record {
  id = id;
  capabilities = capabilities;
  heartbeat_interval_ms = heartbeat_interval_ms;
  next_heartbeat = 0;
  running = none;
  heartbeat_paused = false;
  pending_failures = 0;
  extra_delay_ms = 0;
  free_memory_bytes = 0;
  joined = false;
  token = none;
  workload = none;
}

unfoldable pub anonymous : NodeCapabilities → ℕ → Agent
anonymous capabilities heartbeat_interval_ms = new_agent none capabilities heartbeat_interval_ms

unfoldable pub with_id : ℕ → NodeCapabilities → ℕ → Agent
with_id id capabilities heartbeat_interval_ms =
    new_agent (some id) capabilities heartbeat_interval_ms

unfoldable pub with_workload : Agent → Workload → Agent
with_workload agent workload = record agent { workload = some workload }

unfoldable pub with_token : Agent → Option String → Agent
with_token agent token = record agent { token = token }

unfoldable pub hello_message : Agent → NodeMessage
hello_message agent = hello protocol_version agent.id agent.capabilities agent.token

unfoldable pub set_free_memory : Agent → ℕ → Agent
set_free_memory agent bytes = record agent { free_memory_bytes = bytes }

unfoldable pub load : Agent → NodeLoad
load agent =
    let busy = is_some agent.running in
    record {
      load_percent = if busy then 100 else 0;
      running_tasks = if busy then 1 else 0;
      free_memory_bytes = agent.free_memory_bytes;
      simulated = false;
    }

-- The wait of the task in `next_wake_ms`.
abbrev pub task_wake : Option Running → Millis → Option ℕ
task_wake none now = none
task_wake (some r) now = some (elim r.work [ primes _ _ _ _ _ ↦ 0 | _ ↦ since r.ready_at now ])

abbrev pub earlier : Option ℕ → Option ℕ → Option ℕ
earlier (some a) (some b) = some (min a b)
earlier (some a) none = some a
earlier none b = b

unfoldable pub next_wake_ms : Agent → Millis → Option ℕ
next_wake_ms agent now =
    earlier
      (if agent.joined && not agent.heartbeat_paused
        then some (since agent.next_heartbeat now)
        else none)
      (task_wake agent.running now)

-- One slice of a computation: the first block of `poll`.
unfoldable pub advance_work : Work → Work
advance_work (ready output) = ready output
advance_work (produced output artifact) = produced output artifact
advance_work (primes node start stop cursor found) =
    let cut = min (saturating_add u64_max cursor compute_slice) stop in
    let total = found + count_primes cursor cut in
    if leb stop cut
    then ready (primes_output node start stop total)
    else primes node start stop cut total

unfoldable pub advance : Agent → Agent
advance agent = elim agent.running [
  | none ↦ agent
  | some r ↦ record agent { running = some (record r { work = advance_work r.work }) }
]

-- What a finished task sends: the second block of `poll`. `none` where there is no result yet.
unfoldable pub report_work : ℕ → Work → Option (List Action)
report_work id (primes _ _ _ _ _) = none
report_work id (ready output) = some (send (task_finished id (TaskOutcome.completed output)) ∷ [])
report_work id (produced output artifact) = some (
    if ltb max_artifact (length artifact)
    then send (
        task_finished id (
          TaskOutcome.failed FailureReason.execution_error (
            "this result is "
            ⋯ show (length artifact)
            ⋯ " bytes and a frame carries at most "
            ⋯ show max_artifact)))
      ∷ []
    else send (task_produced id (new_artifact artifact))
      ∷ send (task_finished id (TaskOutcome.completed output))
      ∷ [])

unfoldable pub report : Agent → Millis → Agent × List Action
report agent now = elim agent.running [
  | none ↦ (agent, [])
  | some r ↦ elim (report_work r.id r.work) [
    | none ↦ (agent, [])
    | some sent ↦
        if leb r.ready_at now then (record agent { running = none }, sent) else (agent, [])
  ]
]

-- The third block of `poll`.
unfoldable pub beat : Agent → Millis → Agent × List Action
beat agent now = elim agent.id [
  | none ↦ (agent, [])
  | some node ↦
      if agent.joined && (not agent.heartbeat_paused && leb agent.next_heartbeat now)
      then (
        record agent { next_heartbeat = plus_ms now (max agent.heartbeat_interval_ms 1) },
        send (heartbeat (record { node = node; load = load agent; at = now })) ∷ [],
      )
      else (agent, [])
]

abbrev pub wake_actions : Option ℕ → List Action
wake_actions none = []
wake_actions (some wake) = wake_in wake ∷ []

unfoldable pub poll : Agent → Millis → Agent × List Action
poll agent now =
    let (reported, results) = report (advance agent) now in
    let (beaten, beats) = beat reported now in
    (beaten, results ++ (beats ++ wake_actions (next_wake_ms beaten now)))

-- What the host's handler makes of a spec that `run_task` leaves to it.
unfoldable pub run_host : Agent → ℕ → TaskSpec → WireTaskSpec → Option TaskWork
run_host agent node spec wire = elim (input wire) [
  | none ↦ none
  | some bytes ↦ elim agent.workload [ none ↦ none | some run ↦ run node spec bytes ]
]

abbrev pub or_else {ℓ} : {A : Type ℓ} → Option A → Option A → Option A
or_else (some a) b = some a
or_else none b = b

abbrev pub wait_and_work : TaskWork → ℕ × Work
wait_and_work (TaskWork.done output) = (0, ready output)
wait_and_work (TaskWork.wait millis output) = (millis, ready output)
wait_and_work (TaskWork.produced output artifact) = (0, produced output artifact)

-- The `match spec` of `accept`: how long to wait and what is held, or `none` for a refusal.
unfoldable pub begin_work : Agent → ℕ → TaskSpec → WireTaskSpec → Option (ℕ × Work)
begin_work agent node (TaskSpec.primes start stop) wire = some (0, primes node start stop start 0)
begin_work agent node spec wire =
    elim (or_else (run_task node spec) (run_host agent node spec wire)) [
      | none ↦ none
      | some work ↦ some (wait_and_work work)
    ]

abbrev pub failed_report : ℕ → FailureReason → String → Action
failed_report id reason detail = send (task_finished id (TaskOutcome.failed reason detail))

-- The part of `accept` that starts an idle worker on a task.
unfoldable pub start_task : Agent → ℕ → ℕ → WireTaskSpec → Millis → Agent × List Action
start_task agent node id wire now =
    if ltb 0 agent.pending_failures
    then (
      record agent { pending_failures = agent.pending_failures - 1 },
      send (task_started id)
          ∷ failed_report id FailureReason.injected "failure injected on this node"
          ∷ [],
    )
    else elim (begin_work agent node (to_task wire) wire) [
      | none ↦ (
        agent,
        send (task_started id)
            ∷ failed_report id FailureReason.execution_error
                ("this worker cannot run " ⋯ describe (to_task wire))
            ∷ [],
      )
      | some (wait_ms, work) ↦
          let (polled, more) =
            poll
              (record agent {
                running = some (record {
                  id = id;
                  ready_at = plus_ms now (saturating_add u64_max wait_ms agent.extra_delay_ms);
                  work = work;
                });
              })
              now in
          (polled, send (task_started id) ∷ more)
    ]

unfoldable pub accept : Agent → ℕ → WireTaskSpec → Millis → Agent × List Action
accept agent id wire now = elim agent.id [
  | none ↦ (agent, [])
  | some node ↦ elim agent.running [
    | none ↦ start_task agent node id wire now
    | some r ↦
        if r.id == id
        then (agent, [])
        else (agent, failed_report id FailureReason.execution_error "node was already busy" ∷ [])
  ]
]

unfoldable pub handle : Agent → SupervisorMessage → Millis → Agent × List Action
handle agent (welcome protocol node interval) now =
    poll
      (record agent {
        id = some node;
        joined = true;
        heartbeat_interval_ms = if ltb 0 interval then interval else agent.heartbeat_interval_ms;
        next_heartbeat = now;
      })
      now
handle agent (rejected reason) now = (agent, disconnect ∷ [])
handle agent shutdown now = (agent, disconnect ∷ [])
handle agent (pause_heartbeat paused) now = poll (record agent { heartbeat_paused = paused }) now
handle agent (inject_failures n) now =
    poll (record agent { pending_failures = saturating_add u32_max agent.pending_failures n }) now
handle agent (set_delay ms) now = poll (record agent { extra_delay_ms = ms }) now
handle agent (SupervisorMessage.assign task spec) now = accept agent task spec now
