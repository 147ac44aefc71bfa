-- ===== src/Scheduler.antt =====
-- crates/cluster-core/src/scheduler.rs and coordinator.rs: placement of a task on a node, and leader
-- election. The theorems stand in `Choice`.
pub mod Defs
pub mod Choice
