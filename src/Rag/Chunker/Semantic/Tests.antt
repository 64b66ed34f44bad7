-- ===== src/Rag/Chunker/Semantic/Tests.antt =====
-- The theorems on the semantic chunker at concrete texts, and runs of the code.
use awesome_agent.Prelude.{
  ℕ, ◌+◌, ◌-◌, ◌*◌, ◌/◌, ◌≡◌, refl, ◌⊎◌, true, false, List, [], ◌∷◌, map, Text, codes, pos, ok, err,
  length, ltb, ◌==◌, is_empty, arith,
}
use awesome_agent.Go.Strings.{trim_space, replace_crlf}
use awesome_agent.Rag.Chunker.Chunk.{Chunk, ChunkOptions}
use awesome_agent.Rag.Chunker.Overlap.Laws.{Numbered}
use awesome_agent.Rag.Chunker.Recursive.{empty_content}
use awesome_agent.Rag.Chunker.Sentences.{split_sentences}
use awesome_agent.Rag.Chunker.Sentences.Tiling.{Covers, Covers-split_sentences}
use awesome_agent.Rag.Chunker.Semantic.{Floats, SemanticChunker, semantic_chunk, find_breakpoints}
use awesome_agent.Rag.Chunker.Semantic.Breakpoints.{FromZero, FromZero-find_breakpoints}
use awesome_agent.Rag.Chunker.Semantic.Total.{semantic_chunk_total}

-- hundredths, rounded; the square root is left out
abbrev floats : Floats ℕ
floats = record {
  zero = 0;
  hundredth = 1;
  of_ℕ = λ n. n;
  plus = λ a b. a + b;
  minus = λ a b. a - b;
  times = λ a b. a * b;
  over = λ a b. a / b;
  sqrt = λ a. a;
  below = ltb;
  is_zero = λ a. a == 0;
}

abbrev vector_of : Text → List ℕ
vector_of text = length text ∷ 1 ∷ []

abbrev chunker : SemanticChunker ℕ
chunker = record {
  embed_batch = λ texts. ok (map vector_of texts);
  window_size = pos 1;
  threshold_factor = 1;
  min_chunk_tokens = pos 1;
}

abbrev story : Text
story = codes "It rained. We left!\nThe end "

abbrev small : ChunkOptions
small = record { chunk_size = pos 2; chunk_overlap = pos 0 }

split_run :
    map (λ s. s.text) (split_sentences story)
    ≡ codes "It rained. " ∷ codes "We left!" ∷ codes "\nThe end" ∷ []
unfolding split_sentences
split_run = refl

-- A full stop behind a digit is taken for a decimal point, also at the end of a sentence.
year_ends : map (λ s. s.text) (split_sentences (codes "In 99. Go.")) ≡ codes "In 99. Go." ∷ []
unfolding split_sentences
year_ends = refl

Covers-split_sentences_example : Covers 0 story (split_sentences story)
Covers-split_sentences_example = Covers-split_sentences story

FromZero-find_breakpoints_example : FromZero (length (split_sentences story)) (
    find_breakpoints floats chunker
      (map (λ s. vector_of s.text) (split_sentences story))
      (split_sentences story))
unfolding split_sentences
FromZero-find_breakpoints_example =
    FromZero-find_breakpoints floats chunker (map (λ s. vector_of s.text) (split_sentences story))
      (split_sentences story) refl (omega arith)

semantic_chunk_total_example :
    ((is_empty (trim_space (replace_crlf story)) ≡ true)
      × (semantic_chunk floats chunker story small ≡ err empty_content))
    ⊎ ((is_empty (trim_space (replace_crlf story)) ≡ false)
        × ((cs : List Chunk) × (semantic_chunk floats chunker story small ≡ ok cs) × Numbered 0 cs))
semantic_chunk_total_example = semantic_chunk_total floats chunker story small
