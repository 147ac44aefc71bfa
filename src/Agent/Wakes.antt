-- ===== src/Agent/Wakes.antt =====
-- crates/cluster-core/src/agent.rs, `next_wake_ms`: a worker that is left alone until the instant that it
-- announced misses nothing.
use gavel.Shared.{ℕ, ◌+◌, ◌≤◌, ◌<◌, ◌≡◌, refl, Option, none, some, List, [], ◌∷◌, ◌++◌, arith, suc}
use gavel.Time.{Millis}
use gavel.Agent.Defs.{
  Action, send, wake_in, disconnect, Work, Running, Agent, ready, produced, primes, advance_work,
  advance, report_work, report, beat, next_wake_ms, wake_actions, poll,
}

-- How many frames are sent.
abbrev pub sends : List Action → ℕ
sends [] = 0
sends (send m ∷ as') = suc (sends as')
sends (wake_in w ∷ as') = sends as'
sends (disconnect ∷ as') = sends as'

pub sends-append : (xs ys : List Action) → sends (xs ++ ys) ≡ sends xs + sends ys
sends-append [] ys = omega arith
sends-append (send m ∷ xs) ys = omega (arith, sends-append xs ys)
sends-append (wake_in w ∷ xs) ys = sends-append xs ys
sends-append (disconnect ∷ xs) ys = sends-append xs ys

pub sends-wake_actions : (o : Option ℕ) → sends (wake_actions o) ≡ 0
sends-wake_actions none = refl
sends-wake_actions (some w) = refl

-- A poll sends what its second and its third block send.
pub sends-poll :
    (agent : Agent) (now : Millis)
    → sends (poll agent now).1
      ≡ sends (report (advance agent) now).1 + sends (beat (report (advance agent) now).0 now).1
unfolding poll
sends-poll agent now =
    let (reported, results) = report (advance agent) now in
    let (beaten, beats) = beat reported now in
    let wakes = wake_actions (next_wake_ms beaten now) in
    omega (
      arith,
      sends-append results (beats ++ wakes),
      sends-append beats wakes,
      sends-wake_actions (next_wake_ms beaten now),
    )

-- The instant `later` comes before the announced one.
abbrev pub IsEarly : Option ℕ → Millis → Millis → Type 0
IsEarly none now later = Unit {0}
IsEarly (some w) now later = later < now + w

-- The task that it holds is not due.
report_early :
    (agent : Agent) (held : Option Running) (now later : Millis)
    → agent.running ≡ held
    → now ≤ later
    → IsEarly (next_wake_ms agent now) now later
    → sends (report (advance agent) later).1 ≡ 0
unfolding next_wake_ms advance advance_work report report_work
report_early agent none now later e le h = ground arith
report_early agent (some r) now later e le h = work_early agent r r.work now later e refl le h
  where
    work_early :
        (agent : Agent) (r : Running) (w : Work) (now later : Millis)
        → agent.running ≡ some r
        → r.work ≡ w
        → now ≤ later
        → IsEarly (next_wake_ms agent now) now later
        → sends (report (advance agent) later).1 ≡ 0
    work_early agent r (ready output) now later e f le h =
        let early : later < r.ready_at = ground arith in rw (e, f) (ground arith)
    work_early agent r (produced output artifact) now later e f le h =
        let early : later < r.ready_at = ground arith in rw (e, f) (ground arith)
    work_early agent r (primes node start stop cursor found) now later e f le h =
        absurd (ground arith)

reported_timer :
    (agent : Agent) (now : Millis)
    → ((report (advance agent) now).0.joined ≡ agent.joined)
      × ((report (advance agent) now).0.heartbeat_paused ≡ agent.heartbeat_paused)
      × ((report (advance agent) now).0.next_heartbeat ≡ agent.next_heartbeat)
unfolding advance report
reported_timer agent now = ground arith

beat_early :
    (agent : Agent) (now later : Millis)
    → now ≤ later
    → IsEarly (next_wake_ms agent now) now later
    → sends (beat (report (advance agent) later).0 later).1 ≡ 0
unfolding next_wake_ms beat
beat_early agent now later le h = ground (arith, reported_timer agent later)

-- A worker whose next wake, asked at `now`, is in `w` milliseconds sends nothing in a poll from `now`
-- on and before `now + w`; and where it announces no wake it sends nothing in any later poll.
pub poll_early :
    (agent : Agent) (now later : Millis)
    → now ≤ later
    → IsEarly (next_wake_ms agent now) now later
    → sends (poll agent later).1 ≡ 0
poll_early agent now later le h = omega (
  arith,
  sends-poll agent later,
  report_early agent agent.running now later refl le h,
  beat_early agent now later le h,
)
