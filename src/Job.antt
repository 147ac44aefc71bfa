-- ===== src/Job.antt =====
-- crates/cluster-core/src/job.rs. `Spec` has what a user asks for and how it is split into tasks,
-- `Machine` the state machines of jobs and tasks with their operations. The theorems stand in
-- `Split` (a job's tasks cover its work) and `Lifecycle` (what holds of jobs and tasks over time).
pub mod Spec
pub mod State
pub mod Machine
pub mod Split
pub mod Lifecycle
