-- ===== src/Agent/Handshake.antt =====
-- crates/cluster-core/src/agent.rs: what a worker that has no id yet may send.
use gavel.Shared.{
  ℕ, ◌≡◌, refl, ap, ◌∙◌, saturating_add, u32_max, Bool, true, false, none, List, [], ◌∷◌, arith,
  All,
}
use gavel.Time.{Millis}
use gavel.Protocol.Defs.{
  SupervisorMessage, WireTaskSpec, welcome, rejected, pause_heartbeat, inject_failures, set_delay,
  shutdown,
}
use gavel.Agent.Defs.{Action, Agent, advance, report, beat, poll, accept, handle}
use gavel.Agent.Tasks.{Wake, message, timer, wake, run}
use gavel.Agent.Wakes.{sends, sends-append, sends-poll}

-- No id, no task.
abbrev pub IsStranger : Agent → Type 0
IsStranger agent = (agent.id ≡ none) × (agent.running ≡ none)

abbrev pub is_welcome : Wake → Bool
is_welcome (message (welcome protocol node interval)) = true
is_welcome _ = false

-- It sends nothing and stays what it is.
abbrev pub IsQuiet : Agent × List Action → Type 0
IsQuiet (agent, actions) = IsStranger agent × (sends actions ≡ 0)

report-none :
    (agent : Agent) (now : Millis) → agent.running ≡ none → report (advance agent) now ≡ (agent, [])
unfolding advance report
report-none agent now e = rw (e, advance) (rw e refl)

beat-none : (agent : Agent) (now : Millis) → agent.id ≡ none → beat agent now ≡ (agent, [])
unfolding beat
beat-none agent now e = ground arith

poll_state :
    (agent : Agent) (now : Millis)
    → (poll agent now).0 ≡ (beat (report (advance agent) now).0 now).0
unfolding poll
poll_state agent now = refl

poll-IsQuiet : (agent : Agent) (now : Millis) → IsStranger agent → IsQuiet (poll agent now)
poll-IsQuiet agent now (no_id, idle) =
    let e = report-none agent now idle in
    let same : (poll agent now).0 ≡ agent =
      poll_state agent now ∙ rw e (ap (λ r. r.0) (beat-none agent now no_id)) in
    let none_sent : sends (poll agent now).1 ≡ 0 =
      sends-poll agent now ∙ rw e (rw (beat-none agent now no_id) refl) in
    (rw same (no_id, idle), none_sent)

accept-IsQuiet :
    (agent : Agent) (task : ℕ) (spec : WireTaskSpec) (now : Millis)
    → IsStranger agent
    → IsQuiet (accept agent task spec now)
unfolding accept
accept-IsQuiet agent task spec now (no_id, idle) = rw (no_id, accept) ((no_id, idle), refl)

wake-IsQuiet :
    (agent : Agent) (w : Wake) (now : Millis)
    → is_welcome w ≡ false
    → IsStranger agent
    → IsQuiet (wake agent w now)
unfolding handle
wake-IsQuiet agent timer now u s = poll-IsQuiet agent now s
wake-IsQuiet agent (message (welcome p node interval)) now u s = absurd (ground arith)
wake-IsQuiet agent (message (rejected reason)) now u s = (s, refl)
wake-IsQuiet agent (message shutdown) now u s = (s, refl)
wake-IsQuiet agent (message (pause_heartbeat paused)) now u s =
    poll-IsQuiet (record agent { heartbeat_paused = paused }) now s
wake-IsQuiet agent (message (inject_failures n)) now u s =
    poll-IsQuiet
      (record agent { pending_failures = saturating_add u32_max agent.pending_failures n }) now s
wake-IsQuiet agent (message (set_delay ms)) now u s =
    poll-IsQuiet (record agent { extra_delay_ms = ms }) now s
wake-IsQuiet agent (message (SupervisorMessage.assign task spec)) now u s =
    accept-IsQuiet agent task spec now s

-- A worker without an id that holds no task, as `Agent::anonymous` makes it, sends no frame and stays
-- without an id and without a task, whatever wakes it, as long as it is not welcomed.
pub run-IsQuiet :
    (agent : Agent) (ws : List (Wake × Millis))
    → All (λ w. is_welcome w.0 ≡ false) ws
    → IsStranger agent
    → IsQuiet (run agent ws)
run-IsQuiet agent [] u s = (s, refl)
run-IsQuiet agent ((w, now) ∷ ws) u s =
    let (next, actions) = wake agent w now in
    let (stays, silent) = wake-IsQuiet agent w now u.0 s in
    let (still, later) = run-IsQuiet next ws u.1 stays in
    (still, sends-append actions (run next ws).1 ∙ rw (silent, later) refl)
