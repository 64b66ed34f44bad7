-- ===== src/Rag/Chunker.antt =====
-- The chunkers of memory/rag/ingestion/chunker.
pub mod Chunk
pub mod Tokens
pub mod Split
pub mod Headings
pub mod Overlap
pub mod Sentences
pub mod Recursive
pub mod Semantic
