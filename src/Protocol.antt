-- ===== src/Protocol.antt =====
-- crates/cluster-core/src/protocol.rs: what workers and the coordinator say to one another, artifacts
-- with their digest, the join token, and the length prefix of a frame.
pub mod Defs
pub mod Frames
