-- ===== src/Workload/Defs.antt =====
-- crates/cluster-core/src/workload.rs. A `Workload` of the host is a function that a worker may be
-- given; text is built as the source's `format!` does.
use gavel.Shared.{
  ℕ, zero, suc, ◌+◌, ◌-◌, ◌*◌, ◌%◌, max, Bool, true, false, ◌||◌, Option, none, some, List, String,
  ◌⋯◌, show, show_padded, ltb, leb, ◌==◌, if◌then◌else◌, range, count,
}
use gavel.Job.Spec.{TaskSpec}

pub data TaskWork : Type 0 where
  wait : (millis : ℕ) (output : String) → TaskWork
  done : (output : String) → TaskWork
  produced : (output : String) (artifact : List ℕ) → TaskWork

-- `Workload::run`.
abbrev pub Workload : Type 0
Workload = ℕ → TaskSpec → List ℕ → Option TaskWork

-- `NodeId` as text, crates/cluster-core/src/ids.rs.
unfoldable pub show_node : ℕ → String
show_node node = "node-" ⋯ show_padded node

unfoldable pub primes_output : ℕ → ℕ → ℕ → ℕ → String
unfolding show_node
primes_output node start stop found =
    show found ⋯ " primes in " ⋯ show start ⋯ ".." ⋯ show stop ⋯ " on " ⋯ show_node node

abbrev pub is_multiple_of : ℕ → ℕ → Bool
is_multiple_of n d = n % d == 0

-- The `while` loop of `is_prime`, on fuel. `d * d` and `d += 6` wrap at 64 bits.
unfoldable pub prime_loop : ℕ → ℕ → ℕ → Bool
prime_loop zero n d = true
prime_loop (suc fuel) n d =
    let rest = prime_loop fuel n ((d + 6) % 18446744073709551616) in
    if leb ((d * d) % 18446744073709551616) n
    then if is_multiple_of n d || is_multiple_of n (d + 2) then false else rest
    else true

unfoldable pub is_prime : ℕ → Bool
unfolding prime_loop
is_prime n =
    if ltb n 2
    then false
    else if is_multiple_of n 2
    then n == 2
    else if is_multiple_of n 3
    then n == 3
    else prime_loop n n 5

unfoldable pub count_primes : ℕ → ℕ → ℕ
count_primes start stop = count is_prime (range (max start 2) (stop - max start 2))

unfoldable pub run_task : ℕ → TaskSpec → Option TaskWork
unfolding show_node
run_task node (TaskSpec.sleep millis) =
    some (wait millis ("slept " ⋯ show millis ⋯ "ms on " ⋯ show_node node))
run_task node (TaskSpec.primes start stop) =
    some (done (primes_output node start stop (count_primes start stop)))
run_task node (TaskSpec.analysis _ _ _) = none
