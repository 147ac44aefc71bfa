-- ===== src/Market/Event.antt =====
-- crates/app-core/src/market/event.rs: what happened and when. `Resets` is about the weekly resets.
pub mod Defs
pub mod Resets
