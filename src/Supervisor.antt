-- ===== src/Supervisor.antt =====
-- crates/cluster-local/src/supervisor.rs: the single owner of the cluster's state. The modules to
-- `Bootstrap` are the program. The invariant of the task table and the queue is in `Table`, and is
-- carried through the end of an attempt (`Tracked`), dispatch (`Busy`, `Queueing`), the tick and
-- nodes that leave (`Upkeep`), nodes that join (`Joins`) and the whole loop (`Steps`); `Refines` draws
-- from it that the table follows the state machine of a task. `Requeue`,
-- `Sweep`, `Stays` and `Takeover` are about the tasks of a node that goes, stays or comes back,
-- `Leaders` about the leader,
-- `Restart`, with `Adopted` and `Pages`, about the startup on a store, and `Ids` about the ids of anonymous workers.
pub mod State
pub mod Settle
pub mod Leadership
pub mod Dispatch
pub mod Health
pub mod Nodes
pub mod Views
pub mod Commands
pub mod Bootstrap
pub mod Table
pub mod Tracked
pub mod Busy
pub mod Queueing
pub mod Upkeep
pub mod Joins
pub mod Steps
pub mod Refines
pub mod Adopted
pub mod Pages
pub mod Restart
pub mod Requeue
pub mod Sweep
pub mod Stays
pub mod Takeover
pub mod Leaders
pub mod Ids
