-- ===== src/Examples/Jobs.antt =====
-- Runs and instances for crates/cluster-core/src/job.rs, workload.rs and role.rs.
use gavel.Shared.{ℕ, ◌≡◌, refl, ◌≤◌, ◌↔◌, true, some, List, [], ◌∷◌, map, sum, arith, u16_max}
use gavel.Time.{Millis}
use gavel.Job.Spec.{JobSpec, TaskSpec, split}
use gavel.Job.State.{JobState, TaskState, job_is_terminal}
use gavel.Job.Machine.{Job, Task, new_job, new_task, progress_percent}
use gavel.Job.Lifecycle
use gavel.Job.Lifecycle.{
  TaskCall, assigns, starts, requeues, completes, IsConsistent, IsDated, assignments, run_job,
  run_task-IsConsistent, run_task-attempt, run_task-completed, run_job_lem, progress_percent_lem,
}
use gavel.Workload.Defs.{is_prime, count_primes}
use gavel.Workload.Prime.{IsPrime, is_prime_lem}
use gavel.Workload.Count.{task_primes, split-count_primes}
use gavel.Role.Defs.{Role, gateway, storage}

abbrev primes_job : JobSpec
primes_job = JobSpec.primes 100 3

cuts : split primes_job ≡ TaskSpec.primes 0 33 ∷ TaskSpec.primes 33 66 ∷ TaskSpec.primes 66 100 ∷ []
unfolding split
cuts = refl

below_hundred : count_primes 0 100 ≡ 25
unfolding count_primes is_prime
below_hundred = refl

abbrev fresh : Task
fresh = new_task 7 2 0 (TaskSpec.sleep 40) 10

-- Assigned, started, lost, assigned again, started and completed, with a call in between that is
-- refused.
abbrev history : List (TaskCall × Millis)
history =
    (assigns 1, 11)
    ∷ (starts, 12)
    ∷ (requeues, 13)
    ∷ (starts, 14)
    ∷ (assigns 2, 15)
    ∷ (starts, 16)
    ∷ (completes "slept", 17)
    ∷ []

abbrev done : Task
done = record fresh {
  state = TaskState.completed;
  assigned_to = some 2;
  attempt = 2;
  output = some "slept";
  updated_at = 17;
}

history_run : Lifecycle.run_task fresh history ≡ done
unfolding gavel.Job.Machine.new_task gavel.Job.Machine.assign gavel.Job.Machine.start
    gavel.Job.Machine.complete gavel.Job.Machine.requeue
history_run = refl

fresh-IsConsistent : IsConsistent fresh
unfolding gavel.Job.Machine.new_task
fresh-IsConsistent = (refl, refl)

fresh-attempt : fresh.attempt ≤ u16_max
unfolding gavel.Job.Machine.new_task
fresh-attempt = omega arith

is_prime_lem_example : (is_prime 97 ≡ true) ↔ IsPrime 97
is_prime_lem_example = is_prime_lem 97 (omega arith)

split-count_primes_example :
    sum (map task_primes (split (JobSpec.primes 100 3))) ≡ count_primes 0 100
split-count_primes_example = split-count_primes 100 3

run_task-IsConsistent_example : IsConsistent (Lifecycle.run_task fresh history)
run_task-IsConsistent_example = run_task-IsConsistent fresh history fresh-IsConsistent

abbrev new_primes : Job
new_primes = new_job 1 primes_job 5

new_primes-IsDated : IsDated new_primes
unfolding gavel.Job.Machine.new_job job_is_terminal
new_primes-IsDated = refl

abbrev asked : List (JobState × Millis)
asked = (JobState.running, 6) ∷ (JobState.completed, 9) ∷ (JobState.failed, 12) ∷ []

abbrev two_of_three : Job
two_of_three = record new_primes { task_count = 3; tasks_completed = 2 }

two_thirds : progress_percent two_of_three ≡ 66
unfolding progress_percent gavel.Job.Machine.new_job
two_thirds = refl

abbrev two_roles : List Role
two_roles = storage ∷ gateway ∷ []

-- One node of each role.
abbrev one_each : Role → ℕ
one_each role = 1
