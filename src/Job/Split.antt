-- ===== src/Job/Split.antt =====
-- crates/cluster-core/src/job.rs, `JobSpec::split`: a job's tasks are as many as `task_count` says,
-- and together they are the job's work.
use gavel.Shared.{
  ℕ, zero, suc, ◌+◌, ◌-◌, ◌*◌, ◌/◌, ◌%◌, ◌≤◌, ◌<◌, min, ◌≡◌, ◌∙◌, List, [], ◌∷◌, map, false, arith,
  range, length, sum, length-map, length-range, All, ◌==◌,
}
use gavel.Job.Spec.{JobSpec, TaskSpec, task_count, sleep_task, primes_task, split, weight}

task_count-pos : (s : JobSpec) → 0 < task_count s
unfolding task_count
task_count-pos (JobSpec.sleep _ tasks) = omega arith
task_count-pos (JobSpec.primes _ tasks) = omega arith
task_count-pos (JobSpec.analysis _ _ tasks) = omega arith

length-tasks : (f : ℕ → TaskSpec) (n : ℕ) → length (map f (range 0 n)) ≡ n
length-tasks f n = length-map f (range 0 n) ∙ length-range 0 n

-- `split` gives exactly `task_count` tasks, whatever the job, and never none.
pub length-split : (s : JobSpec) → (length (split s) ≡ task_count s) × (0 < task_count s)
unfolding split
length-split (JobSpec.sleep ms tasks) = (length-tasks _ _, task_count-pos (JobSpec.sleep ms tasks))
length-split (JobSpec.primes bound tasks) =
    (length-tasks _ _, task_count-pos (JobSpec.primes bound tasks))
length-split (JobSpec.analysis v a tasks) =
    (length-tasks _ _, task_count-pos (JobSpec.analysis v a tasks))

-- The first `r` indices carry one unit more.
abbrev ones : ℕ → ℕ → ℕ → ℕ
ones start k r = min (start + k) r - min start r

sleep_sum :
    (total n start k : ℕ)
    → sum (map weight (map (sleep_task total n) (range start k)))
      ≡ k * (total / n) + ones start k (total % n)
unfolding weight sleep_task
sleep_sum total n start zero = omega arith
sleep_sum total n start (suc k) = ground (arith, sleep_sum total n (suc start) k)

sleep_even :
    (total n start k : ℕ)
    → All
        (λ t. (total / n ≤ weight t) × (weight t ≤ total / n + 1))
        (map (sleep_task total n) (range start k))
unfolding weight sleep_task
sleep_even total n start zero = tt
sleep_even total n start (suc k) = (ground arith, sleep_even total n (suc start) k)

-- The tasks of a sleep job sleep for its whole time together, and no two of them differ by more
-- than a millisecond.
pub split-sleep :
    (total tasks : ℕ)
    → let s = JobSpec.sleep total tasks in
      (sum (map weight (split s)) ≡ total)
      × All
          (λ t. (total / task_count s ≤ weight t) × (weight t ≤ total / task_count s + 1))
          (split s)
unfolding split
split-sleep total tasks =
    let n = task_count (JobSpec.sleep total tasks) in
    (
      omega (arith, sleep_sum total n 0 n, task_count-pos (JobSpec.sleep total tasks)),
      sleep_even total n 0 n,
    )

-- The tasks are the ranges of [lo, hi), one behind the other.
abbrev pub Tiles : ℕ → ℕ → List TaskSpec → Type 0
Tiles lo hi [] = lo ≡ hi
Tiles lo hi (TaskSpec.primes start stop ∷ ts) = (start ≡ lo) × (lo ≤ stop) × Tiles stop hi ts
Tiles lo hi (_ ∷ ts) = ⊥

chunks_le : (bound n i : ℕ) → i ≤ n → i * (bound / n) ≤ bound
chunks_le bound n i h = grind arith

primes-Tiles :
    (bound n i k lo : ℕ)
    → i + suc k ≡ n
    → lo ≡ i * (bound / n)
    → Tiles lo bound (map (primes_task bound n) (range i (suc k)))
unfolding primes_task
primes-Tiles bound n i zero lo e h =
    (omega arith, ground (arith, chunks_le bound n i), ground arith)
primes-Tiles bound n i (suc k) lo e h =
    let more : (i + 1 == n) ≡ false = ground arith in
    rw more (
      omega arith,
      omega arith,
      primes-Tiles bound n (suc i) k (i * (bound / n) + bound / n) (omega arith) (omega arith),
    )

-- The tasks of a prime count are consecutive ranges that begin at 0 and end at the bound: no
-- candidate is left out and none is counted twice.
pub split-primes : (bound tasks : ℕ) → Tiles 0 bound (split (JobSpec.primes bound tasks))
unfolding split
split-primes bound tasks =
    go (task_count (JobSpec.primes bound tasks)) (task_count-pos (JobSpec.primes bound tasks))
  where
    go : (n : ℕ) → 0 < n → Tiles 0 bound (map (primes_task bound n) (range 0 n))
    go zero h = absurd (omega arith)
    go (suc k) h = primes-Tiles bound (suc k) 0 k 0 (omega arith) (omega arith)
