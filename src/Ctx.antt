-- ===== src/Ctx.antt =====
-- The context of a prompt: the packages ctx and ctx/gssc.
pub mod Packet
pub mod Selector
pub mod Structurer
pub mod Gatherer
pub mod Tests
