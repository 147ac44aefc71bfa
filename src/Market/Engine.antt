-- ===== src/Market/Engine.antt =====
-- crates/app-core/src/market/engine.rs: the statistics of a market's history. `Defs` and `Place` are the program
-- without `Spark`. `Hours` is about the buckets, `Quantile` and `Spread` about quantiles, `Rank` about
-- ranks, and `Shown` about what a position shows.
pub mod Defs
pub mod Place
pub mod Hours
pub mod Quantile
pub mod Spread
pub mod Rank
pub mod Shown
