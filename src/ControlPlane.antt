-- ===== src/ControlPlane.antt =====
-- thor-control-plane/crates/thor-control-server: authorisation of operators, the emergency
-- protocol, and the staged rollout of policies.
pub mod Delegation
pub mod BreakGlass
pub mod Canary
