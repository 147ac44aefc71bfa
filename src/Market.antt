-- ===== src/Market.antt =====
-- crates/app-core/src/market: what an auction house offers and what its prices have been.
pub mod Defs
pub mod Latest
pub mod Depth
pub mod Cadence
pub mod Event
pub mod Stats
pub mod Engine
pub mod Alerts
pub mod Spark
pub mod Key
