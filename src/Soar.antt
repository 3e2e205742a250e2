-- ===== src/Soar.antt =====
-- crates/thor-agent/src/soar: the autonomous response to alerts.
pub mod Breaker
pub mod Blocking
pub mod Correlator
pub mod Suspender
pub mod Response
