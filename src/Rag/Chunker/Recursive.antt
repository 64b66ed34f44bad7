-- ===== src/Rag/Chunker/Recursive.antt =====
-- RecursiveChunker.Chunk, chunkNode and directChildren of recursive.go.
pub mod Safety
use awesome_agent.Prelude.{
  ℕ, zero, suc, ◌+◌, ◌-◌, pos, Bool, true, false, not, ◌&&◌, Option, none, some, List, [], ◌∷◌,
  ◌++◌, Text, Result, ok, err, ◌>>=◌, length, take, drop, keep, is_empty, leb, ltb, ◌==◌,
  if◌then◌else◌,
}
use awesome_agent.Go.Strings.{trim_space, replace_crlf, newline}
use awesome_agent.Rag.Chunker.Chunk.{Chunk, ChunkOptions, Sizes, normalise}
use awesome_agent.Rag.Chunker.Tokens.{estimate_rune_tokens, estimate_tokens}
use awesome_agent.Rag.Chunker.Split.{make_chunk, split_into_chunks}
use awesome_agent.Rag.Chunker.Headings.{HeadingNode, parse_headings, build_content_ranges}
use awesome_agent.Rag.Chunker.Overlap.{apply_overlap, number_from}

-- empty_content is the error ErrEmptyContent; a slice out of range is a panic; out_of_fuel stands for
-- a recursion deeper than the fuel.
pub data Fault : Type 0 where
  empty_content : Fault
  slice_out_of_range : Fault
  out_of_fuel : Fault

-- text[from:to]
unfoldable pub slice : Text → ℕ → ℕ → Result Fault Text
slice text from to =
    if leb from to && leb to (length text)
    then ok (take (to - from) (drop from text))
    else err slice_out_of_range

-- strings.Repeat("#", level)
abbrev pub hashes : ℕ → Text
hashes zero = []
hashes (suc level) = b'#' ∷ hashes level

unfoldable pub node_path : Text → HeadingNode → Text
node_path parent_path node =
    if is_empty node.title
    then parent_path
    else parent_path ++ (hashes node.level ++ (32 ∷ (node.title ++ newline ∷ [])))

unfoldable pub direct_children : HeadingNode → List HeadingNode → List HeadingNode
direct_children parent all =
    keep
      (λ node.
        leb parent.content_start node.content_start
        && leb node.content_end parent.content_end
        && node.level == parent.level + 1)
      all

abbrev pub last_or : HeadingNode → List HeadingNode → HeadingNode
last_or node [] = node
last_or node (n ∷ nodes) = last_or n nodes

-- the chunks that one call after the other appends
abbrev pub each :
    (HeadingNode → Result Fault (List Chunk)) → List HeadingNode → Result Fault (List Chunk)
each f [] = ok []
each f (n ∷ nodes) = f n >>= λ chunks. each f nodes >>= λ more. ok (chunks ++ more)

module _ (chunk_size : ℕ) (content : Text) (all : List HeadingNode) where
  -- the text from `from` to `to`, cut by splitIntoChunks; nothing if the range is empty
  unfoldable pub split_range : Text → ℕ → ℕ → Result Fault (List Chunk)
  unfolding slice split_into_chunks
  split_range path from to =
      if ltb from to
      then (slice content from to >>= λ text. ok (split_into_chunks chunk_size path text from))
      else ok []

  -- the node in one chunk
  unfoldable pub whole_node : Text → HeadingNode → Result Fault (List Chunk)
  unfolding slice
  whole_node path node = slice content node.content_start node.content_end >>= λ text. ok (
      record {
        index = 0;
        content = path ++ text;
        token_est = estimate_rune_tokens (node.content_end - node.content_start);
        start_pos = pos node.content_start;
        end_pos = node.content_end;
      }
      ∷ [])

  -- the text before the first child, the children, the text behind the last
  abbrev pub around :
      Text → HeadingNode → List HeadingNode → Result Fault (List Chunk) → Result Fault (List Chunk)
  around path node [] inner = split_range path node.content_start node.content_end
  around path node (child ∷ children) inner =
      split_range path node.content_start child.content_start >>= λ gap. inner >>= λ chunks.
      split_range path (last_or child children).content_end node.content_end >>= λ tail.
      ok (gap ++ (chunks ++ tail))

  unfoldable pub chunk_node : ℕ → Text → HeadingNode → Result Fault (List Chunk)
  unfolding node_path direct_children split_range whole_node
  chunk_node zero parent_path node = err out_of_fuel
  chunk_node (suc fuel) parent_path node =
      let path = node_path parent_path node in
      let children = direct_children node all in
      let inner = each (chunk_node fuel path) children in
      let whole = whole_node path node in
      let parts = around path node children inner in
      if leb node.content_end node.content_start
      then ok []
      else if leb (estimate_rune_tokens (node.content_end - node.content_start)) chunk_size
      then whole
      else parts

abbrev pub min_level : HeadingNode → List HeadingNode → ℕ
min_level first [] = first.level
min_level first (n ∷ nodes) =
    let rest = min_level first nodes in if ltb n.level rest then n.level else rest

abbrev pub virtual_root : ℕ → HeadingNode → List HeadingNode → HeadingNode
virtual_root total first nodes = record {
  level = min_level first nodes - 1;
  title = [];
  line_start = 0;
  content_start = 0;
  content_end = total;
}

-- levels are from 0 to 6 and each call of chunkNode is one deeper, so seven calls are enough
abbrev pub chunk_content : ℕ → Text → List HeadingNode → Result Fault (List Chunk)
chunk_content chunk_size content [] = ok (split_into_chunks chunk_size [] content 0)
chunk_content chunk_size content (first ∷ nodes) =
    let root = virtual_root (length content) first nodes in
    chunk_node chunk_size content (root ∷ first ∷ nodes) 7 [] root

unfoldable pub chunk : Text → ChunkOptions → Result Fault (List Chunk)
unfolding chunk_node split_into_chunks apply_overlap parse_headings build_content_ranges normalise
chunk raw opts =
    let content = replace_crlf raw in
    let sizes = normalise opts in
    let headings = build_content_ranges (length content) (parse_headings content) in
    let chunks = chunk_content sizes.chunk_size content headings >>= λ chunks.
    ok (apply_overlap sizes.chunk_overlap (number_from 0 chunks)) in
    if is_empty (trim_space content) then err empty_content else chunks
