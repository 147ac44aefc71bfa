-- ===== src/Market/Stats.antt =====
-- crates/app-core/src/market/stats.rs: listings summarised. `Defs` is the program, and `Summary` is
-- about what a summary says of the listings.
pub mod Defs
pub mod Summary
