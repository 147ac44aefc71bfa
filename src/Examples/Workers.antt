-- ===== src/Examples/Workers.antt =====
-- Runs and instances for crates/cluster-core/src/scheduler.rs, coordinator.rs and agent.rs.
use gavel.Shared.{ℕ, ◌≡◌, refl, ◌+◌, true, some, List, [], ◌∷◌, arith, ok, In}
use gavel.Time.{Millis}
use gavel.Job.Spec.{TaskSpec}
use gavel.Job.Machine.{Task, TaskOutcome, new_task}
use gavel.Node.Defs.{Node, NodeCapabilities, NodeStatus, healthy, suspect, default_load}
use gavel.Scheduler.Defs.{least_loaded, elect}
use gavel.Workload.Defs.{count_primes, primes_output}
use gavel.Protocol.Defs.{SupervisorMessage, WireTaskSpec, welcome, task_finished}
use gavel.Agent.Defs.{Agent, send, anonymous}
use gavel.Agent.Tasks
use gavel.Agent.Tasks.{Wake, message, timer, Balanced, all_bounces, run-Balanced}
use gavel.Shared.{subst, Option, none}
use gavel.Protocol.Defs.{Bytes, set_delay, encode_frame, of_task}
use gavel.Protocol.Frames.{Sends, encode_frame_lem, Ships, of_task-Ships}
use gavel.Agent.Defs.{next_wake_ms, new_agent}
use gavel.Agent.Wakes.{IsEarly}
use gavel.Agent.Handshake.{IsStranger}
use gavel.Agent.Slices.{polls, count_run, count_finishes}

abbrev one_core : NodeCapabilities
one_core = record { cores = 1; memory_bytes = 1000000 }

abbrev worker : ℕ → NodeStatus → Node
worker id status = record {
  id = id;
  status = status;
  roles = 8;
  capabilities = one_core;
  load = default_load;
  last_seen = 100;
  joined_at = 1;
}

abbrev three_nodes : List Node
three_nodes = worker 4 healthy ∷ worker 1 suspect ∷ worker 2 healthy ∷ []

abbrev a_task : Task
a_task = new_task 7 2 0 (TaskSpec.sleep 40) 10

chosen : (least_loaded a_task three_nodes ≡ ok 2) × (elect three_nodes ≡ some 2)
unfolding least_loaded elect gavel.Role.Defs.has
chosen = (refl, refl)

abbrev newcomer : Agent
newcomer = anonymous one_core 1000

-- It joins, takes a count, refuses a second task, and is woken twice by its timer.
abbrev a_day : List (Wake × Millis)
a_day =
    (message (welcome 1 3 1000), 10)
    ∷ (message (SupervisorMessage.assign 20 (WireTaskSpec.primes 0 10000)), 11)
    ∷ (message (SupervisorMessage.assign 21 (WireTaskSpec.sleep 5)), 12)
    ∷ (timer, 13)
    ∷ (timer, 1013)
    ∷ []

run-Balanced_example :
    Balanced 20 newcomer (all_bounces 20 newcomer a_day) (Tasks.run newcomer a_day)
run-Balanced_example = run-Balanced 20 newcomer a_day

abbrev counting : Agent
counting = record newcomer { id = some 3; running = some (count_run 20 11 3 0 10000 0 0) }

count_finishes_example :
    In
      (send (
        task_finished 20
          (TaskOutcome.completed (primes_output 3 0 10000 (0 + count_primes 0 10000)))))
      (polls counting (11 ∷ 12 ∷ [])).1
count_finishes_example =
    count_finishes counting (11 ∷ 12 ∷ []) 20 11 3 0 10000 0 0 refl (omega arith) (omega arith)
      (omega arith, (omega arith, tt)) (omega arith) (omega arith)

-- A worker that has no task and beats next at 1000.
abbrev rested : Agent
rested = record newcomer { id = some 3; joined = true; next_heartbeat = 1000 }

rested-IsEarly : IsEarly (next_wake_ms rested 10) 10 500
unfolding next_wake_ms anonymous new_agent
rested-IsEarly = omega arith

-- A task and a delay that reach the newcomer before its welcome.
abbrev unwelcome : List (Wake × Millis)
unwelcome =
    (message (SupervisorMessage.assign 20 (WireTaskSpec.primes 0 10000)), 1)
    ∷ (message (set_delay 5), 2)
    ∷ (timer, 3)
    ∷ []

newcomer-IsStranger : IsStranger newcomer
unfolding anonymous new_agent
newcomer-IsStranger = (refl, refl)

-- A codec of numbers as one byte.
abbrev to_byte : ℕ → Option Bytes
to_byte n = some (n ∷ [])

abbrev of_byte : Bytes → Option ℕ
of_byte (n ∷ []) = some n
of_byte _ = none

abbrev read_option : Option Bytes → Option ℕ
read_option none = none
read_option (some body) = of_byte body

byte_codec : (n : ℕ) (body : Bytes) → to_byte n ≡ some body → of_byte body ≡ some n
byte_codec n body e = subst (λ (o : Option Bytes). read_option o ≡ some n) e refl

encode_frame_lem_example : Sends to_byte of_byte 7 (1 ∷ []) (encode_frame to_byte 7 (1 ∷ []))
encode_frame_lem_example = encode_frame_lem to_byte of_byte byte_codec 7 (1 ∷ [])

of_task-Ships_example :
    Ships
      (TaskSpec.analysis 1 2 3)
      (5 ∷ 6 ∷ [])
      (of_task (TaskSpec.analysis 1 2 3) (some (5 ∷ 6 ∷ [])))
of_task-Ships_example = of_task-Ships (TaskSpec.analysis 1 2 3) (5 ∷ 6 ∷ [])
