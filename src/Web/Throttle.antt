-- ===== src/Web/Throttle.antt =====
-- crates/app-web/src/throttle.rs: the limits on sign-ins, registrations and open streams. `Defs` is
-- the program without the streams, which are `Streams`. `Login` is about sign-ins, `Tracked` and
-- `Gate` about the addresses that are remembered, and `Admitted` about the streams let in.
pub mod Defs
pub mod Login
pub mod Tracked
pub mod Gate
pub mod Streams
pub mod Admitted
