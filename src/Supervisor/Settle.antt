-- ===== src/Supervisor/Settle.antt =====
-- crates/cluster-local/src/supervisor.rs: the end of an attempt, the retry, and the job's end.
use gavel.Shared.{
  ℕ, ◌+◌, Bool, not, ◌&&◌, ◌||◌, none, some, List, [], ◌∷◌, ◌++◌, String, ok, err, ltb,
  if◌then◌else◌, saturating_add, u16_max, map, filter,
}
use gavel.Shared.BTreeMap.{get, insert, values}
use gavel.Time.{Millis}
use gavel.Job.State.{
  JobState, FailureReason, node_offline, is_terminal, job_is_terminal, job_state_eq,
}
use gavel.Job.Machine.{Job, Task, TaskOutcome, complete, fail, requeue, job_transition_to}
use gavel.Supervisor.State.{
  Supervisor, Config, task_completed, task_failed, task_requeued, job_completed, job_failed,
  persist_task, persist_job, insert_task, emit, record_failure, node_eq,
}

abbrev pub count_completed : Job → Job
count_completed job = record job { tasks_completed = saturating_add u16_max job.tasks_completed 1 }

abbrev pub count_failed : Job → Job
count_failed job = record job { tasks_failed = saturating_add u16_max job.tasks_failed 1 }

abbrev pub held_by : ℕ → Task → Bool
held_by node t = node_eq t.assigned_to (some node) && not (is_terminal t.state)

module _ {Handle : Type 0} where
  abbrev pub insert_job : Supervisor Handle → ℕ → Job → Supervisor Handle
  insert_job s k j = record s { jobs = insert k j s.jobs }

  -- The part of `settle_job` behind its guards.
  unfoldable pub close_job : Supervisor Handle → ℕ → Job → Millis → Supervisor Handle
  close_job s job_id job now =
      let next = if ltb 0 job.tasks_failed then JobState.failed else JobState.completed in
      elim (job_transition_to job next now) [
        | err _ ↦ s
        | ok closed ↦
            emit (persist_job (insert_job s job_id closed) closed) now (
              if job_state_eq next JobState.failed then job_failed job_id else job_completed job_id)
      ]

  unfoldable pub settle_job : Supervisor Handle → ℕ → Millis → Supervisor Handle
  settle_job s job_id now = elim (get job_id s.jobs) [
    | none ↦ s
    | some job ↦
        if ltb (job.tasks_completed + job.tasks_failed) job.task_count
        then s
        else if job_is_terminal job.state
        then s
        else close_job s job_id job now
  ]

  -- `if let Some(job) = self.jobs.get_mut(..) { ..; persist_job }`.
  unfoldable pub update_job : Supervisor Handle → ℕ → (Job → Job) → Supervisor Handle
  update_job s job_id f = elim (get job_id s.jobs) [
    | none ↦ s
    | some job ↦ persist_job (insert_job s job_id (f job)) (f job)
  ]

  -- The two ends of `retry_or_give_up`.
  unfoldable pub retry : Supervisor Handle → Task → Millis → Supervisor Handle
  retry s task now = elim (requeue task now) [
    | err _ ↦ s
    | ok task' ↦
        let stored = persist_task (insert_task s task') task' in
        emit (record stored { queue = s.queue ++ (task'.id ∷ []); retried = s.retried + 1 }) now
          (task_requeued task'.id)
  ]

  unfoldable pub give_up : Supervisor Handle → Task → Millis → Supervisor Handle
  give_up s task now = elim (fail task now) [
    | err _ ↦ s
    | ok task' ↦
        settle_job (update_job (persist_task (insert_task s task') task') task'.job_id count_failed)
          task'.job_id now
  ]

  unfoldable pub retry_or_give_up : Config → Supervisor Handle → ℕ → Millis → Supervisor Handle
  retry_or_give_up config s task_id now = elim (get task_id s.tasks) [
    | none ↦ s
    | some task ↦
        if ltb task.attempt config.max_task_attempts then retry s task now else give_up s task now
  ]

  -- The arm of a completed outcome.
  unfoldable pub finish_completed :
      Supervisor Handle → ℕ → Task → String → Millis → Supervisor Handle
  finish_completed s node task output now = elim (complete task output now) [
    | err _ ↦ s
    | ok task' ↦
        let told =
          emit (persist_task (insert_task s task') task') now (task_completed task'.id node) in
        settle_job (update_job told task'.job_id count_completed) task'.job_id now
  ]

  unfoldable pub finish_failed :
      Config
      → Supervisor Handle
      → ℕ
      → Task
      → ℕ
      → FailureReason
      → String
      → Millis
      → Supervisor Handle
  finish_failed config s node task task_id reason detail now =
      retry_or_give_up config
        (emit (record_failure s task reason detail now) now
          (task_failed task.id (some node) reason))
        task_id now

  abbrev pub outcome_of :
      Config → Supervisor Handle → ℕ → Task → ℕ → TaskOutcome → Millis → Supervisor Handle
  outcome_of config s node task task_id (TaskOutcome.completed output) now =
      finish_completed s node task output now
  outcome_of config s node task task_id (TaskOutcome.failed reason detail) now =
      finish_failed config s node task task_id reason detail now

  unfoldable pub finish_task :
      Config → Supervisor Handle → ℕ → ℕ → TaskOutcome → Millis → Supervisor Handle
  finish_task config s node task_id outcome now = elim (get task_id s.tasks) [
    | none ↦ s
    | some task ↦
        if not (node_eq task.assigned_to (some node)) || is_terminal task.state
        then s
        else outcome_of config s node task task_id outcome now
  ]

  -- The body of the loop in `requeue_tasks_of`.
  unfoldable pub fail_attempt : Config → Supervisor Handle → ℕ → ℕ → Millis → Supervisor Handle
  fail_attempt config s node task_id now = elim (get task_id s.tasks) [
    | none ↦ s
    | some task ↦
        retry_or_give_up config
          (emit (record_failure s task node_offline "node went offline" now) now
            (task_failed task_id (some node) node_offline))
          task_id now
  ]

  unfoldable pub requeue_each : Config → Supervisor Handle → ℕ → List ℕ → Millis → Supervisor Handle
  requeue_each config s node [] now = s
  requeue_each config s node (id ∷ ids) now =
      requeue_each config (fail_attempt config s node id now) node ids now

  unfoldable pub requeue_tasks_of : Config → Supervisor Handle → ℕ → Millis → Supervisor Handle
  requeue_tasks_of config s node now =
      requeue_each config s node (map (λ t. t.id) (filter (held_by node) (values s.tasks))) now
