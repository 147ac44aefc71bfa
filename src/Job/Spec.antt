-- ===== src/Job/Spec.antt =====
-- crates/cluster-core/src/job.rs: `JobSpec` and `TaskSpec`. Numbers of the source's widths are ℕ;
-- no sum here leaves u64, since every one is at most the number that is split.
use gavel.Shared.{
  ℕ, ◌+◌, ◌*◌, ◌/◌, ◌%◌, max, List, map, String, ◌⋯◌, show, range, ltb, ◌==◌, if◌then◌else◌,
  saturating_sub,
}

pub data JobSpec : Type 0 where
  sleep : (total_ms tasks : ℕ) → JobSpec
  primes : (upper_bound tasks : ℕ) → JobSpec
  analysis : (version algorithm partitions : ℕ) → JobSpec

pub data TaskSpec : Type 0 where
  sleep : (millis : ℕ) → TaskSpec
  primes : (start stop : ℕ) → TaskSpec
  analysis : (version algorithm partition : ℕ) → TaskSpec

unfoldable pub kind : JobSpec → String
kind (JobSpec.sleep _ _) = "sleep"
kind (JobSpec.primes _ _) = "primes"
kind (JobSpec.analysis _ _ _) = "analysis"

unfoldable pub task_count : JobSpec → ℕ
task_count (JobSpec.sleep _ tasks) = max tasks 1
task_count (JobSpec.primes _ tasks) = max tasks 1
task_count (JobSpec.analysis _ _ partitions) = max partitions 1

unfoldable pub describe_job : JobSpec → String
describe_job (JobSpec.sleep total_ms tasks) =
    "sleep " ⋯ show total_ms ⋯ "ms over " ⋯ show tasks ⋯ " tasks"
describe_job (JobSpec.primes upper_bound tasks) =
    "primes below " ⋯ show upper_bound ⋯ " over " ⋯ show tasks ⋯ " tasks"
describe_job (JobSpec.analysis version _ partitions) =
    "materialise analysis " ⋯ show version ⋯ " over " ⋯ show partitions ⋯ " partitions"

-- The closure of each arm of `split`, at the index `i` of `n` tasks.
unfoldable pub sleep_task : ℕ → ℕ → ℕ → TaskSpec
sleep_task total_ms n i = TaskSpec.sleep (total_ms / n + (if ltb i (total_ms % n) then 1 else 0))

unfoldable pub primes_task : ℕ → ℕ → ℕ → TaskSpec
primes_task upper_bound n i =
    let chunk = upper_bound / n in
    let start = i * chunk in
    TaskSpec.primes start (if i + 1 == n then upper_bound else start + chunk)

unfoldable pub analysis_task : ℕ → ℕ → ℕ → TaskSpec
analysis_task version algorithm i = TaskSpec.analysis version algorithm (i % 4294967296)

unfoldable pub split : JobSpec → List TaskSpec
unfolding task_count sleep_task primes_task analysis_task
split (JobSpec.sleep total_ms tasks) =
    let n = task_count (JobSpec.sleep total_ms tasks) in map (sleep_task total_ms n) (range 0 n)
split (JobSpec.primes upper_bound tasks) =
    let n = task_count (JobSpec.primes upper_bound tasks) in
    map (primes_task upper_bound n) (range 0 n)
split (JobSpec.analysis version algorithm partitions) =
    let n = task_count (JobSpec.analysis version algorithm partitions) in
    map (analysis_task version algorithm) (range 0 n)

unfoldable pub describe : TaskSpec → String
describe (TaskSpec.sleep millis) = "sleep " ⋯ show millis ⋯ "ms"
describe (TaskSpec.primes start stop) = "primes in " ⋯ show start ⋯ ".." ⋯ show stop
describe (TaskSpec.analysis version _ partition) =
    "analysis " ⋯ show version ⋯ " partition " ⋯ show partition

unfoldable pub weight : TaskSpec → ℕ
weight (TaskSpec.sleep millis) = millis
weight (TaskSpec.primes start stop) = saturating_sub stop start
weight (TaskSpec.analysis _ _ _) = 1
