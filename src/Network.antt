-- ===== src/Network.antt =====
-- crates/thor-agent/src/network: reassembly of TCP streams.
pub mod Reassembler
