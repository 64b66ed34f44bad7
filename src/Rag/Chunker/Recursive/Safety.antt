-- ===== src/Rag/Chunker/Recursive/Safety.antt =====
-- Chunk never slices out of range, and its fuel is enough.
use awesome_agent.Prelude.{
  ℕ, zero, suc, ◌+◌, ◌-◌, ◌≤◌, ◌≡◌, if_elim, ap, ◌∙◌, ◌⊎◌, inl, inr, Bool, true, false, List, [],
  ◌∷◌, Text, Result, IsOk, IsOk->>=, IsOk-value, ok, err, ◌>>=◌, length, keep, is_empty, leb, ltb,
  Bool-cases, if_true, if_false, All, All-mono, arith,
}
use awesome_agent.Go.Strings.{trim_space, replace_crlf}
use awesome_agent.Rag.Chunker.Chunk.{Chunk, ChunkOptions, normalise}
use awesome_agent.Rag.Chunker.Headings.{HeadingNode, parse_headings, build_content_ranges}
use awesome_agent.Rag.Chunker.Headings.Ranges.{InRange, ranges_nested}
use awesome_agent.Rag.Chunker.Tokens.{estimate_rune_tokens}
use awesome_agent.Rag.Chunker.Overlap.{apply_overlap, number_from}
use awesome_agent.Rag.Chunker.Overlap.Laws.{Numbered, Numbered-apply_overlap, Numbered-number_from}
use awesome_agent.Rag.Chunker.Recursive.{
  Fault, slice, empty_content, direct_children, last_or, each, split_range, whole_node, around,
  chunk_node, node_path, min_level, virtual_root, chunk_content, chunk,
}

module _ {ℓ} {A : Type ℓ} where
  -- what a kept element has: the property, and the test
  All-keep :
      {P Q : A → Type 0} (p : A → Bool)
      → ((x : A) → P x → p x ≡ true → Q x)
      → (xs : List A) → All P xs
      → All Q (keep p xs)
  All-keep p f [] h = tt
  All-keep {Q = Q} p f (x ∷ xs) (a, h) =
      if_elim (All Q) (p x) (x ∷ keep p xs) (keep p xs) (λ k. (f x a k, All-keep p f xs h))
        (λ k. All-keep p f xs h)

IsOk-slice : (text : Text) (from to : ℕ) → from ≤ to → to ≤ length text → IsOk (slice text from to)
unfolding slice
IsOk-slice text from to h k = ground arith

IsOk-each :
    (P : HeadingNode → Type 0) (f : HeadingNode → Result Fault (List Chunk))
    → ((n : HeadingNode) → P n → IsOk (f n))
    → (ns : List HeadingNode) → All P ns
    → IsOk (each f ns)
IsOk-each P f h [] a = tt
IsOk-each P f h (n ∷ ns) (p, a) =
    IsOk->>= (f n) _ (h n p) (λ chunks. IsOk->>= (each f ns) _ (IsOk-each P f h ns a) (λ more. tt))

InRange-last_or :
    (total : ℕ) (n : HeadingNode) (ns : List HeadingNode)
    → InRange total n
    → All (InRange total) ns
    → InRange total (last_or n ns)
InRange-last_or total n [] h a = h
InRange-last_or total n (m ∷ ns) h (b, a) = InRange-last_or total m ns b a

-- a direct child is one level deeper
abbrev Child : ℕ → HeadingNode → HeadingNode → Type 0
Child total parent n = InRange total n × (n.level ≡ parent.level + 1)

All-direct_children :
    (total : ℕ) (parent : HeadingNode) (all : List HeadingNode)
    → All (InRange total) all
    → All (Child total parent) (direct_children parent all)
unfolding direct_children
All-direct_children total parent all h = All-keep _ (λ n r k. (r, ground arith)) all h

module _ (chunk_size : ℕ) (content : Text) (all : List HeadingNode)
    (ranges : All (InRange (length content)) all) where
  IsOk-split_range :
      (path : Text) (from to : ℕ)
      → to ≤ length content
      → IsOk (split_range chunk_size content all path from to)
  unfolding split_range
  IsOk-split_range path from to h =
      if_elim IsOk (ltb from to) _ (ok [])
        (λ k.
          IsOk->>= (slice content from to) _ (IsOk-slice content from to (ground arith) h)
            (λ text. tt))
        (λ k. tt)

  IsOk-whole_node :
      (path : Text) (n : HeadingNode)
      → InRange (length content) n
      → IsOk (whole_node chunk_size content all path n)
  unfolding whole_node
  IsOk-whole_node path n (a, b, c) =
      IsOk->>= (slice content n.content_start n.content_end) _
        (IsOk-slice content n.content_start n.content_end a b) (λ text. tt)

  IsOk-around :
      (path : Text) (n : HeadingNode) (ns : List HeadingNode) (inner : Result Fault (List Chunk))
      → InRange (length content) n
      → All (InRange (length content)) ns
      → IsOk inner
      → IsOk (around chunk_size content all path n ns inner)
  IsOk-around path n [] inner (a, b, c) hs i = IsOk-split_range path n.content_start n.content_end b
  IsOk-around path n (m ∷ ns) inner (a, b, c) ((d, e, f), hs) i =
      IsOk->>= (split_range chunk_size content all path n.content_start m.content_start) _
        (IsOk-split_range path n.content_start m.content_start (omega arith))
        (λ gap. IsOk->>= inner _ i (λ chunks.
          IsOk->>=
            (split_range chunk_size content all path (last_or m ns).content_end n.content_end) _
            (IsOk-split_range path (last_or m ns).content_end n.content_end b) (λ tail. tt)))

  IsOk-chunk_node :
      (fuel : ℕ) (path : Text) (n : HeadingNode)
      → InRange (length content) n
      → 7 ≤ fuel + n.level
      → IsOk (chunk_node chunk_size content all fuel path n)
  unfolding chunk_node
  IsOk-chunk_node zero path n (a, b, c) h = absurd (omega arith)
  IsOk-chunk_node (suc fuel) path n r h =
      if_elim IsOk (leb n.content_end n.content_start) (ok []) _ (λ k. tt)
        (λ k.
          if_elim IsOk (leb (estimate_rune_tokens (n.content_end - n.content_start)) chunk_size)
            (whole_node chunk_size content all (node_path path n) n) _
            (λ q. IsOk-whole_node (node_path path n) n r)
            (λ q.
              IsOk-around (node_path path n) n (direct_children n all) _ r
                (All-mono (λ m c. c.0) (direct_children n all)
                  (All-direct_children (length content) n all ranges))
                (IsOk-each (Child (length content) n)
                  (chunk_node chunk_size content all fuel (node_path path n))
                  (λ m c. IsOk-chunk_node fuel (node_path path n) m c.0 (omega arith))
                  (direct_children n all) (All-direct_children (length content) n all ranges))))

min_level-le : (n : HeadingNode) (nodes : List HeadingNode) → min_level n nodes ≤ n.level
min_level-le n [] = omega arith
min_level-le n (m ∷ nodes) = ground (arith, min_level-le n nodes)

IsOk-chunk_content :
    (chunk_size : ℕ) (content : Text) (nodes : List HeadingNode)
    → All (InRange (length content)) nodes
    → IsOk (chunk_content chunk_size content nodes)
IsOk-chunk_content chunk_size content [] h = tt
IsOk-chunk_content chunk_size content (n ∷ nodes) (r, h) =
    let root = virtual_root (length content) n nodes in
    let bound = min_level-le n nodes in
    let within : InRange (length content) root = (omega arith, omega arith, omega arith) in
    IsOk-chunk_node chunk_size content (root ∷ n ∷ nodes) (within, (r, h)) 7 [] root within
      (omega arith)

-- Chunk returns the error on a text that is blank, and no other: on any other text it returns chunks,
-- numbered from 0 in their order, without a slice out of range and within the depth of seven calls.
pub chunk_total :
    (raw : Text) (opts : ChunkOptions)
    → ((is_empty (trim_space (replace_crlf raw)) ≡ true) × (chunk raw opts ≡ err empty_content))
      ⊎ ((is_empty (trim_space (replace_crlf raw)) ≡ false)
          × ((cs : List Chunk) × (chunk raw opts ≡ ok cs) × Numbered 0 cs))
chunk_total raw opts =
    let content = replace_crlf raw in
    let sizes = normalise opts in
    let headings = build_content_ranges (length content) (parse_headings content) in
    let (cs, e) =
      IsOk-value (chunk_content sizes.chunk_size content headings)
        (IsOk-chunk_content sizes.chunk_size content headings (ranges_nested content).1) in
    let cs' = apply_overlap sizes.chunk_overlap (number_from 0 cs) in
    elim (Bool-cases (is_empty (trim_space content))) [
      | inl h ↦ inl (h, unfold chunk in if_true (is_empty (trim_space content)) _ _ h)
      | inr h ↦ inr (
        h,
        (
          cs',
          unfold chunk in
              if_false (is_empty (trim_space content)) _ _ h
              ∙ ap
                  (λ r.
                    r >>= λ chunks. ok (apply_overlap sizes.chunk_overlap (number_from 0 chunks)))
                  e,
          Numbered-apply_overlap sizes.chunk_overlap (number_from 0 cs) 0
              (Numbered-number_from 0 cs),
        ),
      )
    ]
