-- ===== src/Agent.antt =====
-- crates/cluster-core/src/agent.rs: the worker's side of the protocol as a state machine. The
-- theorems stand in `Tasks`, `Slices`,
-- `Handshake` and `Wakes`.
pub mod Defs
pub mod Tasks
pub mod Slices
pub mod Handshake
pub mod Wakes
