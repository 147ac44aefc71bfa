-- ===== src/Job/State.antt =====
-- crates/cluster-core/src/job.rs: the states of jobs and tasks, with the transitions that are legal,
-- and the reasons of a failure.
use gavel.Shared.{Bool, true, false, Option, String, List, [], ◌∷◌, find}
use text.Mathlib.Text.{◌==◌ as str_eq}

pub data JobState : Type 0 where
  queued running completed failed cancelled : JobState

pub data TaskState : Type 0 where
  queued assigned running completed failed : TaskState

pub data FailureReason : Type 0 where
  node_offline execution_error injected timeout cancelled : FailureReason

-- crates/cluster-core/src/error.rs.
pub data StateError : Type 0 where
  illegal_job_transition : (from to : JobState) → StateError
  illegal_task_transition : (from to : TaskState) → StateError

abbrev pub all_job_states : List JobState
all_job_states =
    JobState.queued ∷ JobState.running ∷ JobState.completed ∷ JobState.failed ∷ JobState.cancelled
    ∷ []

unfoldable pub job_state_as_str : JobState → String
job_state_as_str JobState.queued = "queued"
job_state_as_str JobState.running = "running"
job_state_as_str JobState.completed = "completed"
job_state_as_str JobState.failed = "failed"
job_state_as_str JobState.cancelled = "cancelled"

unfoldable pub job_is_terminal : JobState → Bool
job_is_terminal JobState.completed = true
job_is_terminal JobState.failed = true
job_is_terminal JobState.cancelled = true
job_is_terminal _ = false

unfoldable pub parse_job_state : String → Option JobState
unfolding job_state_as_str
parse_job_state s = find (λ v. str_eq (job_state_as_str v) s) all_job_states

unfoldable pub job_can_transition_to : JobState → JobState → Bool
job_can_transition_to JobState.queued JobState.running = true
job_can_transition_to JobState.queued JobState.cancelled = true
job_can_transition_to JobState.queued JobState.failed = true
job_can_transition_to JobState.running JobState.completed = true
job_can_transition_to JobState.running JobState.failed = true
job_can_transition_to JobState.running JobState.cancelled = true
job_can_transition_to _ _ = false

abbrev pub all_task_states : List TaskState
all_task_states =
    TaskState.queued ∷ TaskState.assigned ∷ TaskState.running ∷ TaskState.completed
    ∷ TaskState.failed ∷ []

unfoldable pub task_state_as_str : TaskState → String
task_state_as_str TaskState.queued = "queued"
task_state_as_str TaskState.assigned = "assigned"
task_state_as_str TaskState.running = "running"
task_state_as_str TaskState.completed = "completed"
task_state_as_str TaskState.failed = "failed"

unfoldable pub is_terminal : TaskState → Bool
is_terminal TaskState.completed = true
is_terminal TaskState.failed = true
is_terminal _ = false

unfoldable pub parse_task_state : String → Option TaskState
unfolding task_state_as_str
parse_task_state s = find (λ v. str_eq (task_state_as_str v) s) all_task_states

unfoldable pub can_transition_to : TaskState → TaskState → Bool
can_transition_to TaskState.queued TaskState.assigned = true
can_transition_to TaskState.assigned TaskState.running = true
can_transition_to TaskState.assigned TaskState.failed = true
can_transition_to TaskState.assigned TaskState.queued = true
can_transition_to TaskState.running TaskState.completed = true
can_transition_to TaskState.running TaskState.failed = true
can_transition_to TaskState.running TaskState.queued = true
can_transition_to TaskState.failed TaskState.queued = true
can_transition_to _ _ = false

abbrev pub all_failure_reasons : List FailureReason
all_failure_reasons =
    FailureReason.node_offline ∷ FailureReason.execution_error ∷ FailureReason.injected
    ∷ FailureReason.timeout ∷ FailureReason.cancelled ∷ []

unfoldable pub failure_reason_as_str : FailureReason → String
failure_reason_as_str FailureReason.node_offline = "node_offline"
failure_reason_as_str FailureReason.execution_error = "execution_error"
failure_reason_as_str FailureReason.injected = "injected"
failure_reason_as_str FailureReason.timeout = "timeout"
failure_reason_as_str FailureReason.cancelled = "cancelled"

unfoldable pub parse_failure_reason : String → Option FailureReason
unfolding failure_reason_as_str
parse_failure_reason s = find (λ v. str_eq (failure_reason_as_str v) s) all_failure_reasons

-- The derived `==` of `JobState`.
abbrev pub job_state_eq : JobState → JobState → Bool
job_state_eq JobState.queued JobState.queued = true
job_state_eq JobState.running JobState.running = true
job_state_eq JobState.completed JobState.completed = true
job_state_eq JobState.failed JobState.failed = true
job_state_eq JobState.cancelled JobState.cancelled = true
job_state_eq _ _ = false
