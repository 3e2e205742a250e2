-- ===== src/Script.antt =====
-- crates/thor-script: the language of detection scripts.
pub mod Syntax
pub mod Lexer
pub mod Matches
pub mod Parser
pub mod Context
pub mod Runtime
