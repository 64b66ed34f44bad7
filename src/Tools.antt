-- ===== src/Tools.antt =====
-- Tools, the registry that holds them, and chains of tool calls (tools/*.go).
pub mod Tool
pub mod Registry
pub mod Chain
mod Tests
pub mod Executor
pub mod Terminal
