-- ===== src/Detection.antt =====
-- crates/thor-agent/src/detection: the detectors of the agent.
pub mod Stages
pub mod Sequence
