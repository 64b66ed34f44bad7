-- ===== src/Rag/Chunker/Semantic/Total.antt =====
-- The semantic chunker never slices out of range, and its recursion ends.
use awesome_agent.Prelude.{
  ℕ, zero, suc, ◌+◌, ◌≤◌, ◌<◌, ◌≡◌, ap, ◌∙◌, ◌⊎◌, inl, inr, true, false, ◌&&◌, List, [], ◌∷◌, Text,
  Result, ok, err, IsOk, IsOk->>=, IsOk-value, ◌>>=◌, length, length-append, is_empty, leb, ltb,
  ◌==◌, arith, if_elim, Bool-cases, if_true, if_false,
}
use awesome_agent.Go.Strings.{trim_space, replace_crlf}
use awesome_agent.Rag.Chunker.Chunk.{Chunk, ChunkOptions, normalise}
use awesome_agent.Rag.Chunker.Tokens.{estimate_tokens}
use awesome_agent.Rag.Chunker.Overlap.{apply_overlap, number_from}
use awesome_agent.Rag.Chunker.Overlap.Laws.{Numbered, Numbered-apply_overlap, Numbered-number_from}
use awesome_agent.Rag.Chunker.Sentences.{Sentence, split_sentences, join_sentences}
use awesome_agent.Rag.Chunker.Sentences.Tiling.{Covers-split_sentences}
use awesome_agent.Rag.Chunker.Recursive.{Fault, empty_content}
use awesome_agent.Rag.Chunker.Semantic.{
  Floats, SemanticChunker, between, embed_sentences, find_breakpoints, group_at, start_of,
  group_chunks, build_from, build_chunks, with_vectors, with_sentences, semantic_split,
  semantic_chunk,
}
use awesome_agent.Rag.Chunker.Semantic.Breakpoints.{
  Rising, Rising-le, FromZero, FromZero-find_breakpoints, NoEmpty, NoEmpty-Contiguous,
  length-join-between,
}

-- what `split` is asked to do with every text shorter than the content
abbrev Splits : ℕ → (Text → ℕ → Result Fault (List Chunk)) → Type 0
Splits size split = (t : Text) (at : ℕ) → length t < size → IsOk (split t at)

group_at-eq :
    (ss : List Sentence) (from to : ℕ)
    → from < to
    → to ≤ length ss
    → group_at ss from to ≡ ok (between ss from to)
unfolding group_at
group_at-eq ss from to h k =
    if_true (leb from to && (leb to (length ss) && ltb from (length ss))) _ _ (ground arith)

module _ {F : Type 0} (floats : Floats F) (sc : SemanticChunker F) (chunk_size : ℕ) where
  IsOk-group_chunks :
      (split : Text → ℕ → Result Fault (List Chunk)) (start : ℕ) (group : List Sentence)
      → IsOk (split (join_sentences group) (start + start_of group))
      → IsOk (group_chunks floats sc chunk_size split start group)
  IsOk-group_chunks split start group h =
      if_elim IsOk (leb (estimate_tokens (join_sentences group)) chunk_size) _ _ (λ p. tt)
        (λ p. if_elim IsOk (leb 2 (length group)) _ _ (λ q. h) (λ q. tt))

  module _ (size : ℕ) (split : Text → ℕ → Result Fault (List Chunk)) (splits : Splits size split)
      (ss : List Sentence) (nonempty : NoEmpty ss) (fits : length (join_sentences ss) ≤ size)
      (start : ℕ) where
    IsOk-group :
        (from to : ℕ)
        → from < to
        → to ≤ length ss
        → (1 ≤ from) ⊎ (to < length ss)
        → IsOk (group_chunks floats sc chunk_size split start (between ss from to))
    IsOk-group from to a b c =
        let shorter = length-join-between ss from to nonempty (omega arith) b c in
        IsOk-group_chunks split start (between ss from to) (splits _ _ (omega arith))

    -- from the second group on
    IsOk-build_from :
        (from : ℕ) (bs : List ℕ)
        → 1 ≤ from
        → Rising from (length ss) bs
        → IsOk (build_from floats sc chunk_size split ss start from bs)
    IsOk-build_from from [] h r = tt
    IsOk-build_from from (to ∷ bs) h (a, r) =
        let bound = Rising-le to (length ss) bs r in
        rw (group_at-eq ss from to a bound) (
          IsOk->>= (group_chunks floats sc chunk_size split start (between ss from to)) _
            (IsOk-group from to a bound (inl h))
            (λ chunks.
              IsOk->>= (build_from floats sc chunk_size split ss start to bs) _
                (IsOk-build_from to bs (omega arith) r) (λ more. tt)))

    IsOk-build_chunks :
        (content : Text) (bs : List ℕ)
        → FromZero (length ss) bs
        → IsOk (build_chunks floats sc chunk_size split content ss start bs)
    IsOk-build_chunks content [] h = tt
    IsOk-build_chunks content (a ∷ []) h = tt
    IsOk-build_chunks content (a ∷ b ∷ []) h = tt
    IsOk-build_chunks content (a ∷ b ∷ c ∷ bs) (e, (lt, (lt', r))) =
        let bound = Rising-le c (length ss) bs r in
        rw (group_at-eq ss a b (omega arith) (omega arith)) (
          IsOk->>= (group_chunks floats sc chunk_size split start (between ss a b)) _
            (IsOk-group a b (omega arith) (omega arith) (inr (omega arith)))
            (λ chunks.
              IsOk->>= (build_from floats sc chunk_size split ss start b (c ∷ bs)) _
                (IsOk-build_from b (c ∷ bs) (omega arith) (lt', r)) (λ more. tt)))

    IsOk-with_vectors :
        (content : Text) (r : Result Text (List (List F)))
        → 1 ≤ length ss
        → IsOk (with_vectors floats sc chunk_size split content ss start r)
    IsOk-with_vectors content (err e) h = tt
    IsOk-with_vectors content (ok vectors) h =
        if_elim IsOk (length vectors == length ss) _ _
          (λ p.
            IsOk-build_chunks content (find_breakpoints floats sc vectors ss)
              (FromZero-find_breakpoints floats sc vectors ss (ground arith) h))
          (λ p. tt)

  IsOk-with_sentences :
      (size : ℕ) (split : Text → ℕ → Result Fault (List Chunk))
      → Splits size split
      → (content : Text) (start : ℕ) (ss : List Sentence) → NoEmpty ss
      → length (join_sentences ss) ≤ size
      → IsOk (with_sentences floats sc chunk_size split content start ss)
  IsOk-with_sentences size split h content start [] n f = tt
  IsOk-with_sentences size split h content start (s ∷ []) n f = tt
  IsOk-with_sentences size split h content start (s ∷ t ∷ ss) n f =
      IsOk-with_vectors size split h (s ∷ t ∷ ss) n f start content
        (embed_sentences sc (s ∷ t ∷ ss)) (omega arith)

  length-join-split_sentences :
      (content : Text) → length (join_sentences (split_sentences content)) ≤ length content
  length-join-split_sentences content =
      let (c, (tail, e, blank)) = Covers-split_sentences content in
      omega
        (arith, length-append (join_sentences (split_sentences content)) tail, ap (length {0}) e)

  IsOk-semantic_split :
      (fuel : ℕ) (content : Text) (start : ℕ)
      → length content < fuel
      → IsOk (semantic_split floats sc chunk_size fuel content start)
  unfolding semantic_split
  IsOk-semantic_split zero content start h = absurd (omega arith)
  IsOk-semantic_split (suc fuel) content start h =
      if_elim IsOk (is_empty (trim_space content)) (ok []) _ (λ p. tt)
        (λ p.
          if_elim IsOk (leb (estimate_tokens content) chunk_size) _ _ (λ q. tt)
            (λ q.
              IsOk-with_sentences (length content) (semantic_split floats sc chunk_size fuel)
                (λ t at k. IsOk-semantic_split fuel t at (omega arith)) content start
                (split_sentences content)
                (NoEmpty-Contiguous 0 (split_sentences content) (Covers-split_sentences content).0)
                (length-join-split_sentences content)))

module _ {F : Type 0} (floats : Floats F) (sc : SemanticChunker F) where
  -- The semantic chunker returns the error on a text that is blank, and no other: on any other text it
  -- returns chunks, numbered from 0, without a slice out of range. This holds for any embedding
  -- service, also one that fails or returns too few vectors, and any similarities; the recursion is
  -- over groups that are shorter than the text, so it ends.
  pub semantic_chunk_total :
      (raw : Text) (opts : ChunkOptions)
      → ((is_empty (trim_space (replace_crlf raw)) ≡ true)
          × (semantic_chunk floats sc raw opts ≡ err empty_content))
        ⊎ ((is_empty (trim_space (replace_crlf raw)) ≡ false)
            × ((cs : List Chunk) × (semantic_chunk floats sc raw opts ≡ ok cs) × Numbered 0 cs))
  unfolding semantic_chunk
  semantic_chunk_total raw opts =
      let content = replace_crlf raw in
      let sizes = normalise opts in
      let (cs, e) =
        IsOk-value (semantic_split floats sc sizes.chunk_size (suc (length content)) content 0) (
          IsOk-semantic_split floats sc sizes.chunk_size (suc (length content)) content 0
            (omega arith)) in
      elim (Bool-cases (is_empty (trim_space content))) [
        | inl h ↦ inl (h, if_true (is_empty (trim_space content)) _ _ h)
        | inr h ↦ inr (
          h,
          (
            apply_overlap sizes.chunk_overlap (number_from 0 cs),
            if_false (is_empty (trim_space content)) _ _ h
                ∙ ap
                    (λ r.
                      r >>= λ chunks. ok (apply_overlap sizes.chunk_overlap (number_from 0 chunks)))
                    e,
            Numbered-apply_overlap sizes.chunk_overlap (number_from 0 cs) 0
                (Numbered-number_from 0 cs),
          ),
        )
      ]
