-- ===== src/Web/Csrf.antt =====
-- crates/app-web/src/csrf.rs: the token that a form carries back. `Defs` is the program, `Hex` is
-- about the encoding, `Bits` about bytes, `Masked` about what a page shows, and `Kept` about the
-- cookies that are kept.
pub mod Defs
pub mod Bits
pub mod Hex
pub mod Masked
pub mod Kept
