-- ===== src/Rag/Chunker/Chunk.antt =====
-- chunker.go: chunks and the options of a chunker.
use awesome_agent.Prelude.{ℕ, ℤ, pos, negsuc, ◌/◌, Text, leb, ◌==◌, if◌then◌else◌}

-- Positions count code points. No chunker sets the metadata, so it is left out. A start may fall below 0 when an overlap is put in front.
pub record Chunk : Type 0 where
  pub index : ℕ
  pub content : Text
  pub token_est : ℕ
  pub start_pos : ℤ
  pub end_pos : ℕ

pub record ChunkOptions : Type 0 where
  pub chunk_size : ℤ
  pub chunk_overlap : ℤ

-- the options after the corrections at the start of Chunk
pub record Sizes : Type 0 where
  pub chunk_size : ℕ
  pub chunk_overlap : ℕ

abbrev size_or_default : ℤ → ℕ
size_or_default (pos n) = if n == 0 then 512 else n
size_or_default (negsuc n) = 512

abbrev not_negative : ℤ → ℕ
not_negative (pos n) = n
not_negative (negsuc n) = 0

abbrev bounded : ℕ → ℕ → ℕ
bounded size overlap = if leb size overlap then size / 4 else overlap

unfoldable pub normalise : ChunkOptions → Sizes
normalise opts =
    let size = size_or_default opts.chunk_size in
    record { chunk_size = size; chunk_overlap = bounded size (not_negative opts.chunk_overlap) }
