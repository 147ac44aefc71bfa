-- ===== src/Role.antt =====
-- crates/cluster-core/src/role.rs. A set of roles is a byte; the six-element arrays that the source
-- indexes by `Role::index` are records with a field for each role. The laws of the set stand in
-- `Set`, those of the replica policies in `Policy`.
pub mod Defs
pub mod Set
pub mod Policy
