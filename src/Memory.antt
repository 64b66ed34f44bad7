-- ===== src/Memory.antt =====
-- The memory of a session: the package memory and memory/types.
pub mod Item
pub mod Working
pub mod Bm25
pub mod Compressor
pub mod Manager
pub mod Tests
