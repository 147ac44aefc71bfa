-- ===== src/Agent/Tasks.antt =====
-- crates/cluster-core/src/agent.rs: a worker holds at most one task, and answers each that it takes.
use gavel.Shared.{
  ℕ, ◌+◌, ◌≡◌, refl, inl, inr, Option, none, some, List, [], ◌∷◌, ◌++◌, arith, ltb, ◌==◌,
  if◌then◌else◌, Option-cases, Bool-cases,
}
use gavel.Time.{Millis}
use gavel.Protocol.Defs.{
  SupervisorMessage, WireTaskSpec, hello, heartbeat, task_produced, task_started, task_finished,
  welcome, rejected, pause_heartbeat, inject_failures, set_delay, shutdown, to_task,
}
use gavel.Agent.Defs.{
  Action, send, wake_in, disconnect, Running, Agent, advance, report_work, report, beat,
  wake_actions, next_wake_ms, poll, begin_work, start_task, accept, handle,
}

abbrev pub one_for : ℕ → ℕ → ℕ
one_for i task = if task == i then 1 else 0

-- How many `TaskStarted` and how many `TaskFinished` frames are sent for the task `i`.
abbrev pub started : ℕ → List Action → ℕ
started i [] = 0
started i (send (task_started task) ∷ as') = one_for i task + started i as'
started i (_ ∷ as') = started i as'

abbrev pub finished : ℕ → List Action → ℕ
finished i [] = 0
finished i (send (task_finished task _) ∷ as') = one_for i task + finished i as'
finished i (_ ∷ as') = finished i as'

started-append : (i : ℕ) (xs ys : List Action) → started i (xs ++ ys) ≡ started i xs + started i ys
started-append i [] ys = omega arith
started-append i (send (task_started _) ∷ xs) ys = omega (arith, started-append i xs ys)
started-append i (send (task_finished _ _) ∷ xs) ys = started-append i xs ys
started-append i (send (task_produced _ _) ∷ xs) ys = started-append i xs ys
started-append i (send (heartbeat _) ∷ xs) ys = started-append i xs ys
started-append i (send (hello _ _ _ _) ∷ xs) ys = started-append i xs ys
started-append i (wake_in _ ∷ xs) ys = started-append i xs ys
started-append i (disconnect ∷ xs) ys = started-append i xs ys

finished-append :
    (i : ℕ) (xs ys : List Action) → finished i (xs ++ ys) ≡ finished i xs + finished i ys
finished-append i [] ys = omega arith
finished-append i (send (task_finished _ _) ∷ xs) ys = omega (arith, finished-append i xs ys)
finished-append i (send (task_started _) ∷ xs) ys = finished-append i xs ys
finished-append i (send (task_produced _ _) ∷ xs) ys = finished-append i xs ys
finished-append i (send (heartbeat _) ∷ xs) ys = finished-append i xs ys
finished-append i (send (hello _ _ _ _) ∷ xs) ys = finished-append i xs ys
finished-append i (wake_in _ ∷ xs) ys = finished-append i xs ys
finished-append i (disconnect ∷ xs) ys = finished-append i xs ys

-- Counting a concatenation.
ruleset counts = (arith, started-append, finished-append)

abbrev pub held_for : ℕ → Option Running → ℕ
held_for i none = 0
held_for i (some r) = one_for i r.id

abbrev pub holding : ℕ → Agent → ℕ
holding i agent = held_for i agent.running

report_balance :
    (i : ℕ) (agent : Agent) (now : Millis)
    → (finished i (report agent now).1 + holding i (report agent now).0 ≡ holding i agent)
      × (started i (report agent now).1 ≡ 0)
unfolding report report_work
report_balance i agent now = ground arith

holding-advance : (i : ℕ) (agent : Agent) → holding i (advance agent) ≡ holding i agent
unfolding advance
holding-advance i agent = ground arith

beat_balance :
    (i : ℕ) (agent : Agent) (now : Millis)
    → (finished i (beat agent now).1 ≡ 0)
      × (started i (beat agent now).1 ≡ 0)
      × (holding i (beat agent now).0 ≡ holding i agent)
unfolding beat
beat_balance i agent now = ground arith

wake_balance :
    (i : ℕ) (o : Option ℕ) → (finished i (wake_actions o) ≡ 0) × (started i (wake_actions o) ≡ 0)
wake_balance i none = (refl, refl)
wake_balance i (some w) = (refl, refl)

-- A poll answers the task that it gives up, and starts none.
poll_balance :
    (i : ℕ) (agent : Agent) (now : Millis)
    → (finished i (poll agent now).1 + holding i (poll agent now).0 ≡ holding i agent)
      × (started i (poll agent now).1 ≡ 0)
unfolding poll
poll_balance i agent now =
    let a = advance agent in
    let (b, results) = report a now in
    let (c, beats) = beat b now in
    let wakes = wake_actions (next_wake_ms c now) in
    omega (
      counts,
      holding-advance i agent,
      report_balance i a now,
      beat_balance i b now,
      wake_balance i (next_wake_ms c now),
    )

-- An idle worker that is given a task says that it started, and holds the task or has answered it.
start_task_balance :
    (i : ℕ) (agent : Agent) (node id : ℕ) (wire : WireTaskSpec) (now : Millis)
    → agent.running ≡ none
    → (finished i (start_task agent node id wire now).1
          + holding i (start_task agent node id wire now).0
        ≡ one_for i id)
      × (started i (start_task agent node id wire now).1 ≡ one_for i id)
unfolding start_task
start_task_balance i agent node id wire now idle =
    elim (Bool-cases (ltb 0 agent.pending_failures)) [
      | inl inject ↦ rw (inject, start_task) (ground arith)
      | inr no_inject ↦ elim (Option-cases (begin_work agent node (to_task wire) wire)) [
        | inl refused ↦ rw (no_inject, refused, start_task) (ground arith)
        | inr (w, begun) ↦ rw (no_inject, begun, start_task) (omega (arith, poll_balance i _ now))
      ]
    ]

-- A task that reaches a worker which holds another one is bounced.
abbrev pub clash : ℕ → Option ℕ → Option Running → ℕ → ℕ
clash i (some node) (some r) task = if r.id == task then 0 else one_for i task
clash i _ _ _ = 0

abbrev pub is_bounced : ℕ → Option ℕ → Option Running → SupervisorMessage → ℕ
is_bounced i id held (SupervisorMessage.assign task spec) = clash i id held task
is_bounced i id held _ = 0

abbrev pub Balanced : ℕ → Agent → ℕ → Agent × List Action → Type 0
Balanced i agent bounced (next, actions) =
    holding i agent + started i actions + bounced ≡ finished i actions + holding i next

poll-Balanced :
    (i : ℕ) (before agent : Agent) (now : Millis)
    → holding i before ≡ holding i agent
    → Balanced i before 0 (poll agent now)
poll-Balanced i before agent now e = omega (arith, poll_balance i agent now)

accept-Balanced :
    (i : ℕ) (agent : Agent) (node_id : Option ℕ) (held : Option Running) (task : ℕ)
    (spec : WireTaskSpec) (now : Millis)
    → agent.id ≡ node_id
    → agent.running ≡ held
    → Balanced i agent
        (is_bounced i node_id held (SupervisorMessage.assign task spec))
        (accept agent task spec now)
unfolding accept
accept-Balanced i agent none held task spec now e f = rw (e, accept) (ground arith)
accept-Balanced i agent (some node) none task spec now e f =
    rw (e, f, accept) (omega (arith, start_task_balance i agent node task spec now f))
accept-Balanced i agent (some node) (some r) task spec now e f = elim (Bool-cases (r.id == task)) [
  | inl same ↦ rw (e, f, same, accept) (ground arith)
  | inr other ↦ rw (e, f, other, accept) (ground arith)
]

-- What wakes a worker: a message of the supervisor, or its own timer.
pub data Wake : Type 0 where
  message : SupervisorMessage → Wake
  timer : Wake

abbrev pub wake : Agent → Wake → Millis → Agent × List Action
wake agent (message m) now = handle agent m now
wake agent timer now = poll agent now

abbrev pub bounces : ℕ → Agent → Wake → ℕ
bounces i agent (message m) = is_bounced i agent.id agent.running m
bounces i agent timer = 0

pub wake-Balanced :
    (i : ℕ) (agent : Agent) (w : Wake) (now : Millis)
    → Balanced i agent (bounces i agent w) (wake agent w now)
unfolding handle
wake-Balanced i agent timer now = poll-Balanced i agent agent now refl
wake-Balanced i agent (message (SupervisorMessage.assign task spec)) now =
    accept-Balanced i agent agent.id agent.running task spec now refl refl
wake-Balanced i agent (message (welcome p node interval)) now = poll-Balanced i agent _ now refl
wake-Balanced i agent (message (rejected reason)) now = ground arith
wake-Balanced i agent (message (pause_heartbeat paused)) now = poll-Balanced i agent _ now refl
wake-Balanced i agent (message (inject_failures n)) now = poll-Balanced i agent _ now refl
wake-Balanced i agent (message (set_delay ms)) now = poll-Balanced i agent _ now refl
wake-Balanced i agent (message shutdown) now = ground arith

-- A worker's run over what wakes it, with the actions in order, and how often it bounced the task `i`.
abbrev pub run : Agent → List (Wake × Millis) → Agent × List Action
run agent [] = (agent, [])
run agent ((w, now) ∷ ws) =
    let (next, actions) = wake agent w now in
    let (last, more) = run next ws in (last, actions ++ more)

abbrev pub all_bounces : ℕ → Agent → List (Wake × Millis) → ℕ
all_bounces i agent [] = 0
all_bounces i agent ((w, now) ∷ ws) = bounces i agent w + all_bounces i (wake agent w now).0 ws

-- Over any run from any state and for each task id: the times that the task was started, or held
-- before, or bounced are as many as the `TaskFinished` sent under its id, and one more where the
-- worker still holds the task.
pub run-Balanced :
    (i : ℕ) (agent : Agent) (ws : List (Wake × Millis))
    → Balanced i agent (all_bounces i agent ws) (run agent ws)
run-Balanced i agent [] = omega arith
run-Balanced i agent ((w, now) ∷ ws) =
    let (next, actions) = wake agent w now in
    omega (counts, wake-Balanced i agent w now, run-Balanced i next ws)
