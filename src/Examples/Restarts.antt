-- ===== src/Examples/Restarts.antt =====
-- crates/cluster-local/src/supervisor.rs: a restart on a store that has a job that ended, and one that
-- was cut off while a worker ran its task.
use gavel.Shared.{
  ℕ, ◌≡◌, refl, sym, subst, arith, Option, some, none, List, [], ◌∷◌, All, if◌then◌else◌, ◌==◌, map,
  ◌<◌, ◌≤◌,
}
use gavel.Shared.BTreeMap.{values, insert}
use gavel.Job.State.{TaskState, JobState, is_terminal, job_is_terminal}
use gavel.Job.Spec.{JobSpec}
use gavel.Job.Machine.{Job, Task, new_job}
use gavel.Supervisor.State.{Supervisor, Store}
use gavel.Supervisor.Bootstrap.{
  bootstrap, restore_jobs, restore_pages, restore_page, restore_recent, adopt_task, adopt_tasks,
  adopt_jobs, last_id, new_supervisor,
}
use gavel.Supervisor.Table.{Anything}
use gavel.Supervisor.Tracked.{Tracked}
use gavel.Supervisor.Adopted.{IsStored}
use gavel.Supervisor.Pages.{Keeps, IsPaged, from_id}
use gavel.Supervisor.Restart.{bootstrap-Tracked}
use gavel.Examples.Cluster.{Mailbox, env, store}
use gavel.Examples.Failures.{running_task}

abbrev ended_job : Job
ended_job = record (new_job 2 (JobSpec.sleep 1 20) 5) { state = JobState.failed; task_count = 1 }

abbrev cut_off_job : Job
cut_off_job = record (new_job 1 (JobSpec.sleep 1 20) 5) { state = JobState.running; task_count = 1 }

abbrev failed_task : Task
failed_task = record running_task { id = 2; job_id = 2; state = TaskState.failed }

abbrev page_after : Option ℕ → List (Job × List Task)
page_after none = (cut_off_job, running_task ∷ []) ∷ []
page_after (some _) = []

abbrev left_behind : Store
left_behind = record store {
  recent_jobs = λ limit. some (ended_job ∷ []);
  tasks_for_job = λ id. if id == 2 then failed_task ∷ [] else [];
  unfinished_jobs_page = λ after limit. some (page_after after);
}

abbrev jobs_of : Option (List Job) → List Job
jobs_of none = []
jobs_of (some js) = js

abbrev entries_of : Option (List (Job × List Task)) → List (Job × List Task)
entries_of none = []
entries_of (some page) = page

ended_job-IsStored : IsStored (ended_job, failed_task ∷ [])
unfolding is_terminal job_is_terminal
ended_job-IsStored = (((refl, refl, omega arith), λ e. refl), tt)

page_after-IsStored : (after : Option ℕ) → All IsStored (page_after after)
unfolding is_terminal job_is_terminal
page_after-IsStored none = ((((refl, refl, omega arith), λ e. absurd (ground arith)), tt), tt)
page_after-IsStored (some id) = tt

left_behind-Keeps : Keeps left_behind
unfolding new_job
left_behind-Keeps = (
  λ limit js e.
      subst (λ o. All (λ j. IsStored (j, left_behind.tasks_for_job j.id)) (jobs_of o)) e
        (ended_job-IsStored, tt),
  λ after limit page e. subst (λ o. All IsStored (entries_of o)) e (page_after-IsStored after),
)

left_behind-IsPaged : IsPaged 2 left_behind
unfolding new_job
left_behind-IsPaged after limit page id p last =
    ends after (subst (λ o. last_id (entries_of o) ≡ some id) (sym p) last)
  where
    ends : (a : Option ℕ) → last_id (page_after a) ≡ some id → (from_id a ≤ id) × (id < 2)
    ends none e = ground arith
    ends (some before) e = absurd (ground arith)

bootstrap-Tracked_example :
    (s : Supervisor Mailbox) × (bootstrap 3 env left_behind 4000 ≡ some s) × Tracked Anything s
bootstrap-Tracked_example =
    bootstrap-Tracked 3 2 env left_behind 4000 left_behind-Keeps left_behind-IsPaged (omega arith)
      (omega arith)

abbrev summary : Option (Supervisor Mailbox) → Option (List (ℕ × Option ℕ) × List ℕ)
summary none = none
summary (some s) = some (map (λ (t : Task). (t.id, t.assigned_to)) (values s.tasks), s.queue)

-- The task that was cut off waits again, and the one that failed is not run again.
restart_requeues :
    summary (restore_jobs 3 env.config left_behind new_supervisor 4000)
    ≡ some ((1, none) ∷ (2, some 1) ∷ [], 1 ∷ [])
unfolding restore_jobs restore_pages restore_page restore_recent adopt_jobs adopt_tasks adopt_task
    insert new_job job_is_terminal is_terminal
restart_requeues = refl
