-- ===== src/Api.antt =====
-- crates/thor-agent/src/api: the middleware of the agent's interface.
pub mod RateLimit
