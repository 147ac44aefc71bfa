-- ===== src/Node.antt =====
-- crates/cluster-core/src/node.rs: nodes, their capabilities, their load and their health.
-- `NodeCapabilities::local` asks the machine, and is not modelled.
pub mod Defs
