-- ===== src/Ids.antt =====
-- crates/thor-agent/src/ids: the flow table, the rule parser and the threshold tracker of the
-- intrusion detection.
pub mod Flow
pub mod FlowTable
pub mod RuleOptions
pub mod RuleText
pub mod Rules
pub mod Threshold
