-- ===== src/Web/Fragments.antt =====
-- crates/app-web/src/fragment_cache.rs: fragments of pages, rendered once for each key. `Defs` is the
-- program, `Keys` is about the keys, `Bound` about how many entries are kept, `Answers` about what
-- callers are given as their calls interleave, and `Again` about a second call.
pub mod Defs
pub mod Keys
pub mod Bound
pub mod Answers
pub mod Again
