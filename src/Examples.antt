-- ===== src/Examples.antt =====
-- Runs of the code on small inputs, and the theorems applied to concrete inputs: `Jobs` for job.rs,
-- workload.rs and role.rs, `Workers` for scheduler.rs, coordinator.rs and agent.rs, `Cluster` and
-- `Failures` and `Restarts` for supervisor.rs, `Instants` for time.rs, `Markets` for the market
-- analysis of app-core, `Pages` and `Accounts` for app-web.
pub mod Jobs
pub mod Workers
pub mod Cluster
pub mod Failures
pub mod Restarts
pub mod Instants
pub mod Markets
pub mod Pages
pub mod Accounts
