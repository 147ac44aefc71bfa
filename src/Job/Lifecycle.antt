-- ===== src/Job/Lifecycle.antt =====
-- crates/cluster-core/src/job.rs: what holds of a task and of a job over any history of calls.
use gavel.Shared.{
  ℕ, ◌+◌, ◌≤◌, ◌<◌, min, ◌≡◌, refl, Bool, true, false, List, [], ◌∷◌, Option, none, String, Result,
  arith, is_some, unwrap_or, if◌then◌else◌, u16_max, ◌&&◌, ◌↔◌, ◌*◌, ◌/◌,
}
use gavel.Time.{Millis}
use gavel.Job.State.{JobState, TaskState, StateError, job_is_terminal, can_transition_to}
use gavel.Job.Machine.{
  Job, Task, job_transition_to, transition_to, assign, start, complete, fail, requeue,
  progress_percent,
}

-- A call of a method of `Task`.
pub data TaskCall : Type 0 where
  assigns : (node : ℕ) → TaskCall
  starts fails requeues : TaskCall
  completes : (output : String) → TaskCall

abbrev pub call_task : Task → TaskCall → Millis → Result StateError Task
call_task t (assigns node) at = assign t node at
call_task t starts at = start t at
call_task t fails at = fail t at
call_task t requeues at = requeue t at
call_task t (completes output) at = complete t output at

abbrev pub is_assignment : TaskCall → Bool
is_assignment (assigns node) = true
is_assignment _ = false

-- A call that fails leaves the task as it was.
abbrev pub run_task : Task → List (TaskCall × Millis) → Task
run_task t [] = t
run_task t ((c, at) ∷ cs) = run_task (unwrap_or (call_task t c at) t) cs

-- What a task holds in each state: the node from the assignment on, an output once completed.
abbrev pub Holds : TaskState → Option ℕ → Option String → ℕ → Type 0
Holds TaskState.queued node output attempt = (node ≡ none) × (output ≡ none)
Holds TaskState.completed node output attempt =
    (is_some node ≡ true) × (is_some output ≡ true) × (0 < attempt)
Holds _ node output attempt = (is_some node ≡ true) × (output ≡ none) × (0 < attempt)

abbrev pub IsConsistent : Task → Type 0
IsConsistent t = Holds t.state t.assigned_to t.output t.attempt

pub call_task-IsConsistent :
    (t : Task) (c : TaskCall) (at : Millis)
    → IsConsistent t
    → IsConsistent (unwrap_or (call_task t c at) t)
unfolding assign start complete fail requeue transition_to
call_task-IsConsistent t (assigns node) at v = ground arith
call_task-IsConsistent t starts at v = ground arith
call_task-IsConsistent t fails at v = ground arith
call_task-IsConsistent t requeues at v = ground arith
call_task-IsConsistent t (completes output) at v = ground arith

-- After any calls on a task of which this holds, refused ones included, it holds again: the task has
-- no node and no output while it is
-- queued, a node and at least one attempt in every other state, and an output exactly if it is
-- completed.
pub run_task-IsConsistent :
    (t : Task) (cs : List (TaskCall × Millis)) → IsConsistent t → IsConsistent (run_task t cs)
run_task-IsConsistent t [] v = v
run_task-IsConsistent t ((c, at) ∷ cs) v =
    run_task-IsConsistent (unwrap_or (call_task t c at) t) cs (call_task-IsConsistent t c at v)

-- How many of the calls were assignments that succeeded.
abbrev pub assignments : Task → List (TaskCall × Millis) → ℕ
assignments t [] = 0
assignments t ((c, at) ∷ cs) =
    (if is_assignment c && can_transition_to t.state TaskState.assigned then 1 else 0)
    + assignments (unwrap_or (call_task t c at) t) cs

attempt_step :
    (t : Task) (c : TaskCall) (at : Millis)
    → (unwrap_or (call_task t c at) t).attempt ≡ (
        if is_assignment c && can_transition_to t.state TaskState.assigned
        then min (t.attempt + 1) u16_max
        else t.attempt)
unfolding assign start complete fail requeue transition_to
attempt_step t (assigns node) at = ground arith
attempt_step t starts at = ground arith
attempt_step t fails at = ground arith
attempt_step t requeues at = ground arith
attempt_step t (completes output) at = ground arith

-- `attempt` counts the assignments that succeeded, and stays at 65535 once it is there.
pub run_task-attempt :
    (t : Task) (cs : List (TaskCall × Millis))
    → t.attempt ≤ u16_max
    → (run_task t cs).attempt ≡ min (t.attempt + assignments t cs) u16_max
run_task-attempt t [] h = omega arith
run_task-attempt t ((c, at) ∷ cs) h =
    ground (arith, attempt_step t c at, run_task-attempt (unwrap_or (call_task t c at) t) cs)

completed_step :
    (t : Task) (c : TaskCall) (at : Millis)
    → t.state ≡ TaskState.completed
    → unwrap_or (call_task t c at) t ≡ t
unfolding assign start complete fail requeue transition_to
completed_step t (assigns node) at h = ground arith
completed_step t starts at h = ground arith
completed_step t fails at h = ground arith
completed_step t requeues at h = ground arith
completed_step t (completes output) at h = ground arith

-- A completed task never changes again, whatever is called on it.
pub run_task-completed :
    (t : Task) (cs : List (TaskCall × Millis)) → t.state ≡ TaskState.completed → run_task t cs ≡ t
run_task-completed t [] h = refl
run_task-completed t ((c, at) ∷ cs) h = rw (completed_step t c at h) (run_task-completed t cs h)

abbrev pub run_job : Job → List (JobState × Millis) → Job
run_job j [] = j
run_job j ((next, at) ∷ rest) = run_job (unwrap_or (job_transition_to j next at) j) rest

-- The end is dated exactly in the terminal states.
abbrev pub IsDated : Job → Type 0
IsDated j = is_some j.finished_at ≡ job_is_terminal j.state

job_step-IsDated :
    (j : Job) (next : JobState) (at : Millis)
    → IsDated j
    → IsDated (unwrap_or (job_transition_to j next at) j)
unfolding job_transition_to
job_step-IsDated j next at h = ground arith

job_step_terminal :
    (j : Job) (next : JobState) (at : Millis)
    → job_is_terminal j.state ≡ true
    → unwrap_or (job_transition_to j next at) j ≡ j
unfolding job_transition_to
job_step_terminal j next at h = ground arith

run_job-IsDated : (j : Job) (cs : List (JobState × Millis)) → IsDated j → IsDated (run_job j cs)
run_job-IsDated j [] h = h
run_job-IsDated j ((next, at) ∷ cs) h =
    run_job-IsDated (unwrap_or (job_transition_to j next at) j) cs (job_step-IsDated j next at h)

run_job-terminal :
    (j : Job) (cs : List (JobState × Millis)) → job_is_terminal j.state ≡ true → run_job j cs ≡ j
run_job-terminal j [] h = refl
run_job-terminal j ((next, at) ∷ cs) h =
    rw (job_step_terminal j next at h) (run_job-terminal j cs h)

-- After any transitions asked of a job whose end is dated exactly if it is terminal, that is so
-- again; and a job that is terminal keeps its state and its date, whatever is asked of it.
pub run_job_lem :
    (j : Job) (cs : List (JobState × Millis))
    → IsDated j
    → IsDated (run_job j cs) × (job_is_terminal j.state ≡ true → run_job j cs ≡ j)
run_job_lem j cs h = (run_job-IsDated j cs h, run_job-terminal j cs)

percent_le : (c n : ℕ) → 0 < n → c ≤ n → (c * 100) / n ≤ 100
percent_le c n p h = grind arith

percent_full : (c n : ℕ) → 0 < n → c ≤ n → (c * 100) / n ≡ 100 → c ≡ n
percent_full c n p h e = grind arith

percent_all : (n : ℕ) → 0 < n → (n * 100) / n ≡ 100
percent_all n p = grind arith

-- The progress of a job that has not more completed tasks than tasks is a percentage, which is 100
-- exactly if every task is completed.
pub progress_percent_lem :
    (j : Job)
    → j.tasks_completed ≤ j.task_count
    → (progress_percent j ≤ 100) × ((progress_percent j ≡ 100) ↔ (j.tasks_completed ≡ j.task_count))
unfolding progress_percent
progress_percent_lem j h = ground (
  arith,
  percent_le j.tasks_completed j.task_count,
  percent_full j.tasks_completed j.task_count,
  percent_all j.task_count,
)
