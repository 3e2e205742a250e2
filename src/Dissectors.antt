-- ===== src/Dissectors.antt =====
-- crates/thor-agent/src/dissectors: the dissectors of protocols.
pub mod Dns
