-- ===== src/Rag/Tests.antt =====
-- The theorems on the chunkers at concrete texts, and runs of the code.
use awesome_agent.Prelude.{
  ℕ, ◌≡◌, refl, ◌⊎◌, inl, inr, Bool, true, false, List, [], ◌∷◌, ◌++◌, map, Text, codes, ℤ, pos,
  Result, ok, err, length, keep, is_empty, take, drop, All,
}
use awesome_agent.Go.Strings.{trim_space, replace_crlf, newline, join, split_lines}
use awesome_agent.Rag.Chunker.Chunk.{Chunk, ChunkOptions}
use awesome_agent.Rag.Chunker.Tokens.{estimate_tokens}
use awesome_agent.Rag.Chunker.Split.{emit_pieces, emit_char_chunks, split_paragraphs}
use awesome_agent.Rag.Chunker.Split.Pieces.{
  body_of, join-emit_pieces, FitsOrPiece, FitsOrPiece-emit_pieces,
}
use awesome_agent.Rag.Chunker.Split.Chars.{Tiles, Tiles-emit_char_chunks}
use awesome_agent.Rag.Chunker.Headings.{parse_headings, build_content_ranges}
use awesome_agent.Rag.Chunker.Headings.Ranges.{AllEnd, InRange, Laminar, ranges_nested}
use awesome_agent.Rag.Chunker.Overlap.{extract_path, extract_body, apply_overlap}
use awesome_agent.Rag.Chunker.Overlap.Laws.{
  Overlapped, Overlapped-apply_overlap, extract_path-extract_body, Numbered,
}
use awesome_agent.Rag.Chunker.Recursive.{Fault, chunk, empty_content}
use awesome_agent.Rag.Chunker.Recursive.Safety.{chunk_total}

abbrev guide : Text
guide = codes "# A\nbig cat\n## B\none two\n\nred\n"

abbrev small : ChunkOptions
small = record { chunk_size = pos 3; chunk_overlap = pos 1 }

abbrev pieces : List Text
pieces = codes "one two" ∷ [] ∷ codes "red" ∷ []

abbrev path : Text
path = codes "# A\n"

join-emit_pieces_example :
    join (newline ∷ []) (map (body_of path) (emit_pieces 2 path (newline ∷ []) pieces [] 0 0))
    ≡ codes "one two\nred"
join-emit_pieces_example = join-emit_pieces 2 path (newline ∷ []) pieces 0 0

FitsOrPiece-emit_pieces_example :
    All (FitsOrPiece 2 path (newline ∷ []) pieces) (emit_pieces 2 path (newline ∷ []) pieces [] 0 0)
FitsOrPiece-emit_pieces_example = FitsOrPiece-emit_pieces 2 path (newline ∷ []) pieces 0 0

ranges_nested_example :
    AllEnd
      (length guide)
      (parse_headings guide)
      (build_content_ranges (length guide) (parse_headings guide))
    × All (InRange (length guide)) (build_content_ranges (length guide) (parse_headings guide))
    × Laminar (length guide) (build_content_ranges (length guide) (parse_headings guide))
ranges_nested_example = ranges_nested guide

extract_path-extract_body_example : extract_path guide ++ extract_body guide ≡ guide
extract_path-extract_body_example = extract_path-extract_body guide

abbrev two_chunks : List Chunk
two_chunks =
    record { index = 0; content = codes "# A\nbig"; token_est = 1; start_pos = pos 4; end_pos = 7 }
    ∷ record {
      index = 1;
      content = codes "# A\ncat";
      token_est = 1;
      start_pos = pos 8;
      end_pos = 11;
    }
    ∷ []

Overlapped-apply_overlap_example : Overlapped 1 two_chunks (apply_overlap 1 two_chunks)
Overlapped-apply_overlap_example = Overlapped-apply_overlap 1 two_chunks

overlap_run :
    map (λ c. c.content) (apply_overlap 1 two_chunks) ≡ codes "# A\nbig" ∷ codes "# A\nig cat" ∷ []
unfolding apply_overlap awesome_agent.Prelude.has_prefix
overlap_run = refl

chunk_total_example :
    ((is_empty (trim_space (replace_crlf guide)) ≡ true) × (chunk guide small ≡ err empty_content))
    ⊎ ((is_empty (trim_space (replace_crlf guide)) ≡ false)
        × ((cs : List Chunk) × (chunk guide small ≡ ok cs) × Numbered 0 cs))
chunk_total_example = chunk_total guide small

abbrev spans : List Chunk → List (Text × ℤ)
spans [] = []
spans (c ∷ cs) = (c.content, c.start_pos) ∷ spans cs

-- The second line stands at 4: the position does not count the empty line that was skipped.
lines_drift :
    spans (emit_pieces 1 [] (newline ∷ []) (split_lines (codes "a\n\n\nb\n\nc")) [] 0 0)
    ≡ (codes "a", pos 0) ∷ (codes "b", pos 2) ∷ (codes "c", pos 4) ∷ []
unfolding emit_pieces split_lines estimate_tokens
lines_drift = refl

-- The same of paragraphs: the second stands at 5.
paragraphs_drift :
    spans (emit_pieces 1 [] (newline ∷ newline ∷ []) (split_paragraphs (codes "a\n\n\n\nb")) [] 0 0)
    ≡ (codes "a", pos 0) ∷ (codes "b", pos 3) ∷ []
unfolding emit_pieces split_paragraphs estimate_tokens
paragraphs_drift = refl

abbrev spans_of : Result Fault (List Chunk) → List (Text × ℤ)
spans_of (ok cs) = spans cs
spans_of (err e) = []

chunk_run : spans_of (chunk (codes "# A\nb") small) ≡ (codes "# A\nb", pos 0) ∷ []
unfolding chunk trim_space replace_crlf awesome_agent.Rag.Chunker.Tokens.estimate_rune_tokens
chunk_run = refl

Tiles-emit_char_chunks_example :
    Tiles path 5 (emit_char_chunks 2 path (codes "a.b") 5) (codes "a.b")
Tiles-emit_char_chunks_example = Tiles-emit_char_chunks 2 path (codes "a.b") 5
