-- ===== src/Rag/Chunker/Overlap.antt =====
-- applyOverlap of recursive.go, extractPath, extractBody and tailRunes.
pub mod Laws
use awesome_agent.Prelude.{
  ℕ, zero, suc, ◌+◌, ◌-◌, ◌*◌, ℤ, pos, negsuc, sub_ℕ, Bool, true, false, not, ◌||◌, List, [], ◌∷◌,
  ◌++◌, Text, length, drop, is_empty, has_prefix, leb, ltb, ◌==◌, if◌then◌else◌,
}
use awesome_agent.Go.Strings.{split_lines, join, newline}
use awesome_agent.Rag.Chunker.Chunk.{Chunk}
use awesome_agent.Rag.Chunker.Tokens.{estimate_tokens}

-- the indices, set by Chunk before the overlap
abbrev pub number_from : ℕ → List Chunk → List Chunk
number_from i [] = []
number_from i (c ∷ cs) = record c { index = i } ∷ number_from (suc i) cs

abbrev pub is_heading_line : Text → Bool
is_heading_line line = has_prefix line (b'#' ∷ [])

-- the heading lines at the front, and what follows
unfoldable pub span_headings : List Text → List Text × List Text
span_headings [] = ([], [])
span_headings (line ∷ lines) =
    let (path, body) = span_headings lines in
    if is_heading_line line then (line ∷ path, body) else ([], line ∷ lines)

-- lines[:i] with a newline behind, or "" for i = 0 and where every line is a heading
abbrev pub path_of : List Text × List Text → Text
path_of (path, []) = []
path_of ([], l ∷ ls) = []
path_of (p ∷ ps, l ∷ ls) = join (newline ∷ []) (p ∷ ps) ++ newline ∷ []

-- lines[i:], or the whole content where every line is a heading
abbrev pub body_of : Text → List Text × List Text → Text
body_of content (path, []) = content
body_of content (path, l ∷ ls) = join (newline ∷ []) (l ∷ ls)

unfoldable pub extract_path : Text → Text
unfolding span_headings split_lines join
extract_path content = path_of (span_headings (split_lines content))

unfoldable pub extract_body : Text → Text
unfolding span_headings split_lines join
extract_body content = body_of content (span_headings (split_lines content))

unfoldable pub tail_runes : Text → ℕ → Text
tail_runes s n = if leb (length s) n then s else drop (length s - n) s

-- a chunk with the tail of the body of the chunk before it in front of its own body
unfoldable pub put_overlap : ℕ → Chunk → Chunk → Chunk
unfolding extract_path extract_body tail_runes estimate_tokens
put_overlap overlap_size prev chunk =
    let overlap_text = tail_runes (extract_body prev.content) (overlap_size * 2) in
    let content =
      extract_path chunk.content ++ (overlap_text ++ (32 ∷ extract_body chunk.content)) in
    if is_empty overlap_text then chunk else record chunk {
      content = content;
      token_est = estimate_tokens content;
      start_pos = sub_ℕ prev.end_pos (length overlap_text);
    }

-- The loop overwrites the slice from the front, so `prev` has its own overlap already.
unfoldable pub overlap_from : ℕ → Chunk → List Chunk → List Chunk
unfolding put_overlap
overlap_from overlap_size prev [] = []
overlap_from overlap_size prev (chunk ∷ chunks) =
    put_overlap overlap_size prev chunk
    ∷ overlap_from overlap_size (put_overlap overlap_size prev chunk) chunks

abbrev pub overlap_list : ℕ → List Chunk → List Chunk
overlap_list overlap_size [] = []
overlap_list overlap_size (chunk ∷ chunks) = chunk ∷ overlap_from overlap_size chunk chunks

unfoldable pub apply_overlap : ℕ → List Chunk → List Chunk
unfolding overlap_from
apply_overlap overlap_size chunks =
    let overlapped = overlap_list overlap_size chunks in
    if overlap_size == 0 || ltb (length chunks) 2 then chunks else overlapped
