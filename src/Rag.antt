-- ===== src/Rag.antt =====
-- Retrieval-augmented generation (memory/rag).
pub mod Chunker
pub mod Tests
pub mod Ingestion
