-- ===== src/Core.antt =====
-- core: messages, and what every agent keeps.
pub mod Message
pub mod Agent
