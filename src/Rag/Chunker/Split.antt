-- ===== src/Rag/Chunker/Split.antt =====
-- splitIntoChunks of recursive.go, and the loops it falls back on: paragraphs, lines, characters.
-- The source appends to a slice; here each function returns what it appends.
pub mod Pieces
pub mod Chars
use awesome_agent.Prelude.{
  ℕ, zero, suc, ◌+◌, max, min, Bool, true, false, not, ◌&&◌, ◌||◌, Option, none, some, List, [],
  ◌∷◌, ◌++◌, pos, Text, codes, length, take, drop, is_empty, leb, ltb, ◌==◌, if◌then◌else◌,
}
use awesome_agent.Go.Strings.{trim_space, split_lines, newline}
use awesome_agent.Rag.Chunker.Chunk.{Chunk, Sizes}
use awesome_agent.Rag.Chunker.Tokens.{estimate_tokens, is_cjk}

unfoldable pub make_chunk : Text → Text → ℕ → Chunk
make_chunk path body start = record {
  index = 0;
  content = path ++ body;
  token_est = estimate_tokens body;
  start_pos = pos start;
  end_pos = start + length body;
}

-- a paragraph ends at the next empty line; `cur` is what has been read of it
unfoldable pub paragraphs_from : Text → Text → List Text
paragraphs_from cur [] = if is_empty cur then [] else cur ∷ []
paragraphs_from cur (c ∷ []) = (cur ++ c ∷ []) ∷ []
paragraphs_from cur (c ∷ d ∷ s) =
    let rest = paragraphs_from [] s in
    elim (c == newline && d == newline) [
      | true ↦ if is_empty cur then rest else cur ∷ rest
      | false ↦ paragraphs_from (cur ++ c ∷ []) (d ∷ s)
    ]

unfoldable pub split_paragraphs : Text → List Text
unfolding paragraphs_from
split_paragraphs body = paragraphs_from [] body

abbrev pub join_buf : Text → Text → Text → Text
join_buf sep buf piece = if is_empty buf then piece else buf ++ (sep ++ piece)

abbrev pub is_last : List Text → Bool
is_last [] = true
is_last (p ∷ ps) = false

module _ (chunk_size : ℕ) (path : Text) where
  -- emitParagraphChunks, with the separator "\n\n", and emitLineChunks, with "\n"; the second skips
  -- empty pieces, the first has none. `buf`, `start` and `at` are the variables of the loops; the
  -- position moves past a separator behind every piece but the last.
  unfoldable pub emit_pieces : Text → List Text → (buf : Text) → (start at : ℕ) → List Chunk
  unfolding make_chunk
  emit_pieces sep [] buf start at = if is_empty buf then [] else make_chunk path buf start ∷ []
  emit_pieces sep (piece ∷ pieces) buf start at =
      let at' = at + length piece + (if is_last pieces then 0 else length sep) in
      let skipped = emit_pieces sep pieces buf start at in
      let flushed = make_chunk path buf start ∷ emit_pieces sep pieces piece at at' in
      let joined = emit_pieces sep pieces (join_buf sep buf piece) start at' in
      if is_empty piece
      then skipped
      else if ltb chunk_size (estimate_tokens (join_buf sep buf piece)) && not (is_empty buf)
      then flushed
      else joined

-- what a character adds to the count of emitCharChunks; `prev` is the one before it in the chunk
abbrev pub starts_word : Option ℕ → Bool
starts_word none = true
starts_word (some p) = p == 32 || p == 10 || is_cjk p

unfoldable pub char_tokens : Option ℕ → ℕ → ℕ
unfolding is_cjk
char_tokens prev c =
    if is_cjk c
    then 1
    else if c == 32 || c == 9 || c == 10
    then 0
    else if starts_word prev
    then 1
    else 0

-- the number of characters that the inner loop takes before it has `target` tokens
unfoldable pub take_tokens : ℕ → ℕ → Option ℕ → Text → ℕ
unfolding char_tokens
take_tokens target tok prev [] = 0
take_tokens target tok prev (c ∷ s) =
    let rest = take_tokens target (tok + char_tokens prev c) (some c) s in
    if ltb tok target then suc rest else 0

-- 。 . newline ！ ？
unfoldable pub is_stop : ℕ → Bool
is_stop c = c == 0x3002 || c == 46 || c == 10 || c == 0xFF01 || c == 0xFF1F

-- how many more characters to take, up to the first stop among the next `window`; 0 if there is none
unfoldable pub to_stop : ℕ → Text → Option ℕ
unfolding is_stop
to_stop zero s = none
to_stop (suc window) [] = none
to_stop (suc window) (c ∷ s) =
    let rest = to_stop window s in
    if is_stop c then some 1 else elim rest [ none ↦ none | some n ↦ some (suc n) ]

abbrev pub or_zero : Option ℕ → ℕ
or_zero none = 0
or_zero (some n) = n

-- the length of the next chunk
unfoldable pub cut_length : ℕ → Text → ℕ
unfolding take_tokens to_stop
cut_length target s =
    let n = max 1 (take_tokens target 0 none s) in n + or_zero (to_stop target (drop n s))

module _ (chunk_size : ℕ) (path : Text) where
  -- each round takes a character at least, so the length of the text is fuel enough
  unfoldable pub char_chunks : ℕ → Text → ℕ → List Chunk
  unfolding make_chunk cut_length
  char_chunks zero s start = []
  char_chunks (suc fuel) [] start = []
  char_chunks (suc fuel) (c ∷ s) start =
      let n = cut_length (max 10 chunk_size) (c ∷ s) in
      make_chunk path (take n (c ∷ s)) start ∷ char_chunks fuel (drop n (c ∷ s)) (start + n)

  unfoldable pub emit_char_chunks : Text → ℕ → List Chunk
  unfolding char_chunks
  emit_char_chunks body start = char_chunks (length body) body start

  abbrev pub emit_lines : Text → List Text → ℕ → List Chunk
  emit_lines body (l ∷ m ∷ ls) start =
      emit_pieces chunk_size path (newline ∷ []) (l ∷ m ∷ ls) [] start start
  emit_lines body _ start = emit_char_chunks body start

  abbrev pub emit_paragraphs : Text → List Text → ℕ → List Chunk
  emit_paragraphs body (p ∷ q ∷ ps) start =
      emit_pieces chunk_size path (newline ∷ newline ∷ []) (p ∷ q ∷ ps) [] start start
  emit_paragraphs body _ start = emit_lines body (split_lines body) start

  unfoldable pub split_into_chunks : Text → ℕ → List Chunk
  unfolding make_chunk emit_pieces emit_char_chunks split_paragraphs split_lines
  split_into_chunks body start =
      if is_empty (trim_space body)
      then []
      else if leb (estimate_tokens body) chunk_size
      then make_chunk path body start ∷ []
      else emit_paragraphs body (split_paragraphs body) start
