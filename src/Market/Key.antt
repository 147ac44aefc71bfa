-- ===== src/Market/Key.antt =====
-- crates/app-core/src/market/key.rs: what identifies a market, and its canonical text. `Defs` is the
-- program, `Text` is about reading back what was written, and `Spellings` about other texts.
pub mod Defs
pub mod Text
pub mod Spellings
