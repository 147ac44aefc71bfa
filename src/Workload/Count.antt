-- ===== src/Workload/Count.antt =====
-- crates/cluster-core/src/workload.rs, `count_primes`: a range may be counted in pieces, so a job that
-- is split over workers counts what one call counts.
use gavel.Shared.{
  ℕ, zero, suc, ◌+◌, ◌-◌, ◌≤◌, max, ◌≡◌, refl, Bool, List, [], ◌∷◌, map, arith, range, count, sum,
}
use gavel.Job.Spec.{JobSpec, TaskSpec, split}
use gavel.Job.Split.{Tiles, split-primes}
use gavel.Workload.Defs.{is_prime, count_primes}

count_cut :
    (p : ℕ → Bool) (s t m n k : ℕ)
    → t ≡ s + m
    → k ≡ m + n
    → count p (range s k) ≡ count p (range s m) + count p (range t n)
count_cut p s t zero n k e f =
    let e' : t ≡ s = omega arith in let f' : k ≡ n = omega arith in rw (e', f') (omega arith)
count_cut p s t (suc m) n k e f =
    let f' : k ≡ suc (m + n) = omega arith in
    rw f' (omega (arith, count_cut p (suc s) t m n (m + n) (omega arith) refl))

-- The primes of [a, c) are those of [a, b) and those of [b, c).
pub count_primes-add :
    (a b c : ℕ) → a ≤ b → b ≤ c → count_primes a c ≡ count_primes a b + count_primes b c
unfolding count_primes
count_primes-add a b c h k =
    count_cut is_prime (max a 2) (max b 2) (b - max a 2) (c - max b 2) (c - max a 2) (omega arith)
      (omega arith)

count_primes_self : (a : ℕ) → count_primes a a ≡ 0
unfolding count_primes
count_primes_self a = let e : a - max a 2 ≡ 0 = omega arith in rw e

-- What a worker counts for a task.
abbrev pub task_primes : TaskSpec → ℕ
task_primes (TaskSpec.primes start stop) = count_primes start stop
task_primes _ = 0

Tiles-le : (lo hi : ℕ) (ts : List TaskSpec) → Tiles lo hi ts → lo ≤ hi
Tiles-le lo hi [] t = omega arith
Tiles-le lo hi (TaskSpec.primes start stop ∷ ts) t = omega (arith, Tiles-le stop hi ts t.2)
Tiles-le lo hi (TaskSpec.sleep _ ∷ ts) t = absurd t
Tiles-le lo hi (TaskSpec.analysis _ _ _ ∷ ts) t = absurd t

sum-Tiles :
    (lo hi : ℕ) (ts : List TaskSpec)
    → Tiles lo hi ts
    → sum (map task_primes ts) ≡ count_primes lo hi
sum-Tiles lo hi [] t = rw (← t) (rw (count_primes_self lo))
sum-Tiles lo hi (TaskSpec.primes start stop ∷ ts) t =
    rw (t.0, sum-Tiles stop hi ts t.2)
      (rw (count_primes-add lo stop hi t.1 (Tiles-le stop hi ts t.2)))
sum-Tiles lo hi (TaskSpec.sleep _ ∷ ts) t = absurd t
sum-Tiles lo hi (TaskSpec.analysis _ _ _ ∷ ts) t = absurd t

-- The counts of the tasks of a prime job add up to the primes below its bound, however many tasks
-- it is split into.
pub split-count_primes :
    (bound tasks : ℕ)
    → sum (map task_primes (split (JobSpec.primes bound tasks))) ≡ count_primes 0 bound
split-count_primes bound tasks = sum-Tiles 0 bound _ (split-primes bound tasks)
