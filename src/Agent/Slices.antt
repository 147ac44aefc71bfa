-- ===== src/Agent/Slices.antt =====
-- crates/cluster-core/src/agent.rs: a prime count that is taken in slices ends, with the output that
-- `run_task` gives for the whole range.
use gavel.Shared.{
  ℕ, ◌+◌, ◌*◌, ◌≤◌, ◌<◌, min, ◌≡◌, refl, ap, ◌∙◌, none, some, List, [], ◌∷◌, ◌++◌, arith, inl, inr,
  ◌⊎◌, All, In, In-append_left, In-append_right, length, saturating_add, u64_max,
}
use gavel.Time.{Millis}
use gavel.Job.Machine.{TaskOutcome}
use gavel.Protocol.Defs.{task_finished}
use gavel.Workload.Defs.{count_primes, primes_output}
use gavel.Workload.Count.{count_primes-add}
use gavel.Agent.Defs.{
  Action, send, Running, Agent, compute_slice, advance_work, advance, report_work, report, beat,
  poll, primes,
}

-- The timer's polls, one after the other.
abbrev pub polls : Agent → List Millis → Agent × List Action
polls agent [] = (agent, [])
polls agent (now ∷ later) =
    let (next, actions) = poll agent now in
    let (last, more) = polls next later in (last, actions ++ more)

abbrev pub count_run : ℕ → Millis → (node start stop cursor found : ℕ) → Running
count_run id ready_at node start stop cursor found = record {
  id = id;
  ready_at = ready_at;
  work = primes node start stop cursor found;
}

lt_or_ge : (a b : ℕ) → (a < b) ⊎ (b ≤ a)
lt_or_ge a b = ground arith

beat_running : (agent : Agent) (now : Millis) → (beat agent now).0.running ≡ agent.running
unfolding beat
beat_running agent now = ground arith

module _ (agent : Agent) (now id : ℕ) (ready_at : Millis) (node start stop cursor found : ℕ)
    (holds : agent.running ≡ some (count_run id ready_at node start stop cursor found)) where
  cut : ℕ
  cut = min (saturating_add u64_max cursor compute_slice) stop

  total : ℕ
  total = found + count_primes cursor cut

  reported_last :
      stop ≤ cut
      → ready_at ≤ now
      → report (advance agent) now ≡ (
        record agent { running = none },
        send (task_finished id (TaskOutcome.completed (primes_output node start stop total))) ∷ [],
      )
  unfolding report advance advance_work report_work cut total
  reported_last past due = ground arith

  reported_next :
      cut < stop
      → (report (advance agent) now).0.running
        ≡ some (count_run id ready_at node start stop cut total)
  unfolding report advance advance_work report_work cut total
  reported_next more = ground arith

  -- The last slice: the result is sent in this poll.
  last_slice :
      stop ≤ cut
      → ready_at ≤ now
      → ((poll agent now).0.running ≡ none)
        × In
            (send (task_finished id (TaskOutcome.completed (primes_output node start stop total))))
            (poll agent now).1
  unfolding poll
  last_slice past due =
      let e = reported_last past due in
      (beat_running (report (advance agent) now).0 now ∙ ap (λ r. r.0.running) e, rw e (inl refl))

  -- Another slice: the count goes on from where it was cut.
  next_slice :
      cut < stop
      → (poll agent now).0.running ≡ some (count_run id ready_at node start stop cut total)
  unfolding poll
  next_slice more = beat_running (report (advance agent) now).0 now ∙ reported_next more

  last_sent :
      stop ≤ cut
      → ready_at ≤ now
      → In
          (send (
            task_finished id (
              TaskOutcome.completed
                (primes_output node start stop (found + count_primes cursor stop)))))
          (poll agent now).1
  unfolding total cut
  last_sent past due =
      let e : cut ≡ stop = omega arith in
      let t : total ≡ found + count_primes cursor stop = rw e in rw (← t) ((last_slice past due).1)

  next_cut :
      cut < stop
      → stop ≤ u64_max
      → (cut ≡ cursor + 8000) × (total + count_primes cut stop ≡ found + count_primes cursor stop)
  unfolding total cut
  next_cut more bound =
      (omega arith, omega (arith, count_primes-add cursor cut stop (omega arith) (omega arith)))

-- A worker that has counted `found` primes up to `cursor` and is polled at times from `ready_at` on,
-- at least once and once for each 8000 candidates that are left, sends the result of the whole
-- count: `found` and the primes from `cursor` to `stop`, which is at most the greatest u64.
pub count_finishes :
    (agent : Agent) (times : List Millis) (id : ℕ) (ready_at : Millis)
    (node start stop cursor found : ℕ)
    → agent.running ≡ some (count_run id ready_at node start stop cursor found)
    → cursor ≤ stop
    → stop ≤ u64_max
    → All (λ now. ready_at ≤ now) times
    → 0 < length times
    → stop ≤ cursor + compute_slice * length times
    → In
        (send (
          task_finished id (
            TaskOutcome.completed
              (primes_output node start stop (found + count_primes cursor stop)))))
        (polls agent times).1
count_finishes agent [] id ready_at node start stop cursor found e c u a p b = absurd (omega arith)
count_finishes agent (now ∷ later) id ready_at node start stop cursor found e c u a p b =
    let next = cut agent now id ready_at node start stop cursor found e in
    let so_far = total agent now id ready_at node start stop cursor found e in
    elim (lt_or_ge next stop) [
      | inl more ↦
          let step = next_cut agent now id ready_at node start stop cursor found e more u in
          In-append_right _ (poll agent now).1 (polls (poll agent now).0 later).1 (
            rw (← step.1) (
              count_finishes (poll agent now).0 later id ready_at node start stop next so_far
                (next_slice agent now id ready_at node start stop cursor found e more) (omega arith)
                u a.1 (omega arith) (omega arith)))
      | inr past ↦
          In-append_left _ (poll agent now).1 (polls (poll agent now).0 later).1
            (last_sent agent now id ready_at node start stop cursor found e past a.0)
    ]
