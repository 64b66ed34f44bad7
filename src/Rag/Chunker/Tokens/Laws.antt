-- ===== src/Rag/Chunker/Tokens/Laws.antt =====
-- Bounds of the estimate.
