-- ===== src/Job/Machine.antt =====
-- crates/cluster-core/src/job.rs: `Job`, `Task` and `TaskAttempt`. A method that mutates `&mut self`
-- returns the new record; on an error the caller's record is unchanged.
use gavel.Shared.{
  ℕ, ◌*◌, ◌/◌, ◌%◌, Option, none, some, String, Result, ok, err, ◌>>=◌, ◌==◌, if◌then◌else◌,
  saturating_add, u16_max,
}
use gavel.Time.{Millis, since}
use gavel.Job.Spec.{JobSpec, TaskSpec, task_count}
use gavel.Job.State.{
  JobState, TaskState, FailureReason, StateError, illegal_job_transition, illegal_task_transition,
  job_is_terminal, job_can_transition_to, job_state_eq, can_transition_to,
}

pub record Job : Type 0 where
  pub id : ℕ
  pub spec : JobSpec
  pub state : JobState
  pub task_count : ℕ
  pub tasks_completed : ℕ
  pub tasks_failed : ℕ
  pub created_at : Millis
  pub finished_at : Option Millis

unfoldable pub new_job : ℕ → JobSpec → Millis → Job
new_job id spec at = record {
  id = id;
  spec = spec;
  state = JobState.queued;
  task_count = task_count spec;
  tasks_completed = 0;
  tasks_failed = 0;
  created_at = at;
  finished_at = none;
}

unfoldable pub job_transition_to : Job → JobState → Millis → Result StateError Job
unfolding job_can_transition_to job_is_terminal
job_transition_to job next at =
    if job_state_eq job.state next
    then ok job
    else if job_can_transition_to job.state next
    then ok (record job {
      state = next;
      finished_at = if job_is_terminal next then some at else job.finished_at;
    })
    else err (illegal_job_transition job.state next)

-- `as u8` keeps the low byte.
unfoldable pub progress_percent : Job → ℕ
progress_percent job =
    if job.task_count == 0 then 100 else ((job.tasks_completed * 100) / job.task_count) % 256

unfoldable pub duration_ms : Job → Millis → ℕ
duration_ms job now = elim job.finished_at [
  | none ↦ since now job.created_at
  | some finished ↦ since finished job.created_at
]

pub record Task : Type 0 where
  pub id : ℕ
  pub job_id : ℕ
  pub index : ℕ
  pub spec : TaskSpec
  pub state : TaskState
  pub assigned_to : Option ℕ
  pub attempt : ℕ
  pub output : Option String
  pub updated_at : Millis

unfoldable pub new_task : ℕ → ℕ → ℕ → TaskSpec → Millis → Task
new_task id job_id index spec at = record {
  id = id;
  job_id = job_id;
  index = index;
  spec = spec;
  state = TaskState.queued;
  assigned_to = none;
  attempt = 0;
  output = none;
  updated_at = at;
}

unfoldable pub transition_to : Task → TaskState → Millis → Result StateError Task
unfolding can_transition_to
transition_to task next at =
    if can_transition_to task.state next
    then ok (record task { state = next; updated_at = at })
    else err (illegal_task_transition task.state next)

unfoldable pub assign : Task → ℕ → Millis → Result StateError Task
unfolding transition_to
assign task node at = do
  moved ← transition_to task TaskState.assigned at
  ok (record moved { assigned_to = some node; attempt = saturating_add u16_max moved.attempt 1 })

unfoldable pub start : Task → Millis → Result StateError Task
unfolding transition_to
start task at = transition_to task TaskState.running at

unfoldable pub complete : Task → String → Millis → Result StateError Task
unfolding transition_to
complete task output at = do
  moved ← transition_to task TaskState.completed at
  ok (record moved { output = some output })

unfoldable pub fail : Task → Millis → Result StateError Task
unfolding transition_to
fail task at = transition_to task TaskState.failed at

unfoldable pub requeue : Task → Millis → Result StateError Task
unfolding transition_to
requeue task at = do
  moved ← transition_to task TaskState.queued at
  ok (record moved { assigned_to = none; output = none })

pub record TaskAttempt : Type 0 where
  pub task_id : ℕ
  pub job_id : ℕ
  pub node_id : Option ℕ
  pub attempt : ℕ
  pub at : Millis
  pub reason : FailureReason
  pub detail : String

unfoldable pub new_attempt : Task → FailureReason → String → Millis → TaskAttempt
new_attempt task reason detail at = record {
  task_id = task.id;
  job_id = task.job_id;
  node_id = task.assigned_to;
  attempt = task.attempt;
  at = at;
  reason = reason;
  detail = detail;
}

pub data TaskOutcome : Type 0 where
  completed : (output : String) → TaskOutcome
  failed : (reason : FailureReason) (detail : String) → TaskOutcome
