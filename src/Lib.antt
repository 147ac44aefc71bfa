-- ===== src/Lib.antt =====
-- Gavel is an auction-market service that spreads its computations over a small cluster of workers.
-- This library models the cluster: what jobs and tasks are, how they are split, computed, placed,
-- retried and settled, and how workers and the supervisor speak with one another; the analysis of
-- the market that the service shows; and the rules of its pages on accounts, forms and caches.
--
-- The parts and the files that model them:
--   * Job models crates/cluster-core/src/job.rs: `JobSpec`, `TaskSpec` and `split` (Job/Spec), the
--     states (Job/State), `Job` and `Task` with their methods (Job/Machine).
--   * Role, Node, Scheduler and Workload model role.rs, node.rs, scheduler.rs with coordinator.rs, and
--     workload.rs of the same crate; Time models time.rs, its calendar in Time/Calendar.
--   * Protocol models protocol.rs: messages, artifacts, the shipping of a task, the join token, and
--     the length prefix of a frame.
--   * Agent models agent.rs, the worker: `handle` and `poll` take a message or the timer and answer
--     with a list of actions, as the source does.
--   * Supervisor models crates/cluster-local/src/supervisor.rs, the single owner of the cluster's
--     state: `step` is one turn of the loop of `run`, on a command, a report or the tick. State has
--     the fields and what is written and emitted, Settle the end of an attempt, Leadership the
--     election, Dispatch the placement of queued tasks, Health the sweep and the pruning, Nodes the
--     nodes that come and go, Views what is shown, Commands the handlers, Bootstrap the start.
--     Its other modules have the theorems: the invariant of the task table and the queue (Table,
--     carried through the operations up to Steps; Refines draws from it that the table follows
--     the state machine of a task), the tasks of nodes that go, stay or come back
--     (Requeue, Sweep, Stays, Takeover), the leader (Leaders), a startup on a store (Restart, with
--     Adopted and Pages), and new ids (Ids).
--   * Market models crates/app-core/src/market: Defs and Latest the types of mod.rs and the latest
--     price, Depth depth.rs (the ladder of price steps, sweeps and walls in Fill, the compact curve in
--     Curve), Cadence the polling of realm.rs, Event event.rs with its weekly resets, Stats stats.rs,
--     Engine and Spark engine.rs (hourly buckets, quantiles and distributions; ranks, gates and
--     positions in Place; sparklines), Alerts alerts.rs, Key the text of a market key of key.rs.
--   * Web models crates/app-web/src: Throttle throttle.rs (failed sign-ins, the windows of attempts,
--     and the gate of open streams in Streams), Fragments fragment_cache.rs, Csrf csrf.rs, and
--     Account the handlers of routes/account.rs and session.rs with the parts of
--     crates/app-core/src/auth.rs and model.rs that they use (Ports, Defs, Visits).
--   * Shared has the Boolean tests, bounded integers, lists over the native numbers, bytes, std's
--     BTreeMap as a sorted association list, HashMap as an association list, sorting, division, the
--     arithmetic of f64, and decimal text. Examples has runs and instances: Jobs, Workers, Cluster, Failures, Restarts and
--     Instants for the cluster, Markets for Market, Pages and Accounts for Web.
--
-- How the code is translated. A method with `&mut self` returns the new record; one that fails
-- returns a result, and its caller keeps the old record. The unsigned types are ℕ, with
-- `saturating_add` and `% 2 ^ w` written out where the source saturates or wraps. An async function
-- that only computes is the function. The supervisor's calls of its store are arguments of the
-- handlers (what the store answers) or entries of `writes` (what is queued for it); a mailbox is
-- a parameter whose `try_send` takes a message or refuses it. The codec of frames and the workload
-- of the host are parameters, and so are the store of users and sessions, the hashing of passwords,
-- the random bytes of the system and the once cell of tokio. Where several requests run at once (the
-- gate of streams, the fragment cache) their parts under one lock or one atomic operation are
-- steps, and a run is any sequence of them; the calls of AuthGate, which takes its two locks one
-- after the other, are run one at a time. Text is a list of characters or of bytes. The quantiles are
-- computed in f64, with the rounding of each operation written out (Shared/Float).
--
-- Fuel. The loop of `is_prime` has as many rounds as the number has units; since the candidate
-- grows by 6 it ends by its own test, which the proof of its theorem shows. Decimal text has one
-- round more than the number. The weekly resets have a round for each week of the window and one
-- more, which the proof of their theorem shows to be enough. The spacing of f64 numbers is found
-- with as many halvings as the number has units, which are enough since each halves it. The
-- search for a free node id has the 65535 rounds of the source's range. The pages of restored
-- jobs are read with as many rounds as the caller gives.
--
-- Not modelled: sockets, channels, timers and logs (node.rs, remote.rs and exec.rs of
-- crates/cluster-local/src), the draining of the persistence queue, the texts of dates of
-- time.rs, the collection, archiving, series and catalogue of the market in crates/app-core, the
-- views, charts, translations and other routes of crates/app-web, the storage adapters, the
-- integrations and the server.
pub mod Shared
pub mod Time
pub mod Job
pub mod Market
pub mod Web
pub mod Role
pub mod Node
pub mod Scheduler
pub mod Workload
pub mod Protocol
pub mod Agent
pub mod Supervisor
pub mod Examples
