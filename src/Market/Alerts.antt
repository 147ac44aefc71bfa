-- ===== src/Market/Alerts.antt =====
-- crates/app-core/src/market/alerts.rs: when a price is called low. `Defs` is the program, and
-- `Raised` is about the alerts that are raised.
pub mod Defs
pub mod Raised
