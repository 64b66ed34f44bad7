-- ===== src/Rag/Ingestion.antt =====
-- memory/rag/ingestion/pipeline.go and parser/parser.go: from a file to stored chunks.
pub mod Store
pub mod Parsers
pub mod Embed
pub mod Pipeline
pub mod Tests
