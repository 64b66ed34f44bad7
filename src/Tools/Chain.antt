-- ===== src/Tools/Chain.antt =====
-- tools/chain.go: a chain of tool calls, its validation and its execution.
pub mod Defs
pub mod Refs
pub mod Context
pub mod Execute
pub mod Group
pub mod Run
pub mod Validate
