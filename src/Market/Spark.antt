-- ===== src/Market/Spark.antt =====
-- crates/app-core/src/market/engine.rs, `Spark`: the shape of a market on a card. `Defs` is the
-- program, `Slots` is about what stands in a slot, and `Text` about the stored form.
pub mod Defs
pub mod Slots
pub mod Text
