-- ===== src/Agents.antt =====
-- agents: the loop of an agent that calls tools.
pub mod React
