-- ===== src/Workload.antt =====
-- crates/cluster-core/src/workload.rs: the computation behind a task. `Count` is about
-- ranges that are cut in pieces, `Prime` about the test of one number.
pub mod Defs
pub mod Count
pub mod Prime
