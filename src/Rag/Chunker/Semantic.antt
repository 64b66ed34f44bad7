-- ===== src/Rag/Chunker/Semantic.antt =====
-- SemanticChunker of semantic.go: chunks that end where the meaning of the sentences changes.
pub mod Breakpoints
pub mod Total
pub mod Tests
use awesome_agent.Prelude.{
  ℕ, zero, suc, ◌+◌, ◌-◌, min, max, ℤ, pos, negsuc, Bool, true, false, not, ◌&&◌, ◌||◌, Option,
  none, some, List, [], ◌∷◌, ◌++◌, map, Text, Result, ok, err, ◌>>=◌, length, take, drop, is_empty,
  leb, ltb, ◌==◌, if◌then◌else◌,
}
use awesome_agent.Go.Strings.{trim_space, replace_crlf, join, newline}
use awesome_agent.Rag.Chunker.Chunk.{Chunk, ChunkOptions, Sizes, normalise}
use awesome_agent.Rag.Chunker.Tokens.{estimate_tokens}
use awesome_agent.Rag.Chunker.Split.{make_chunk, split_into_chunks}
use awesome_agent.Rag.Chunker.Overlap.{apply_overlap, number_from}
use awesome_agent.Rag.Chunker.Sentences.{Sentence, split_sentences, join_sentences}
use awesome_agent.Rag.Chunker.Recursive.{Fault, empty_content, slice_out_of_range, out_of_fuel}

-- the operations on float64 that the code uses
pub record Floats (F : Type 0) : Type 0 where
  pub zero : F
  pub hundredth : F
  pub of_ℕ : ℕ → F
  pub plus : F → F → F
  pub minus : F → F → F
  pub times : F → F → F
  pub over : F → F → F
  pub sqrt : F → F
  pub below : F → F → Bool
  pub is_zero : F → Bool

-- `embed_batch` is EmbedBatch of the embedding service.
pub record SemanticChunker (F : Type 0) : Type 0 where
  pub embed_batch : List Text → Result Text (List (List F))
  pub window_size : ℤ
  pub threshold_factor : F
  pub min_chunk_tokens : ℤ

abbrev pub or_default : ℕ → ℤ → ℤ
or_default d (pos zero) = pos d
or_default d (pos (suc n)) = pos (suc n)
or_default d (negsuc n) = negsuc n

-- `none` is the error of a service that is nil
unfoldable pub new_semantic_chunker :
    {F : Type 0}
    → Floats F
    → Option (List Text → Result Text (List (List F)))
    → ℤ
    → F
    → ℤ
    → Option (SemanticChunker F)
new_semantic_chunker floats none window_size factor min_chunk_tokens = none
new_semantic_chunker floats (some embed_batch) window_size factor min_chunk_tokens = some (record {
  embed_batch = embed_batch;
  window_size = or_default 1 window_size;
  threshold_factor = if floats.is_zero factor then floats.of_ℕ 1 else factor;
  min_chunk_tokens = or_default 50 min_chunk_tokens;
})

-- sentences[from:to]
abbrev pub between : List Sentence → ℕ → ℕ → List Sentence
between sentences from to = take (to - from) (drop from sentences)

-- the text of sentence `i` with its neighbours in the window; nothing where the window is empty
abbrev pub window_text : ℤ → List Sentence → ℕ → Text
window_text (pos (suc r)) sentences i =
    join (newline ∷ [])
      (map (λ s. s.text) (between sentences (i - r) (min (length sentences - 1) (i + r) + 1)))
window_text (pos zero) sentences i = []
window_text (negsuc n) sentences i = []

abbrev pub window_texts : ℤ → List Sentence → ℕ → List Sentence → List Text
window_texts window all i [] = []
window_texts window all i (s ∷ ss) = window_text window all i ∷ window_texts window all (i + 1) ss

module _ {F : Type 0} where
  -- batches of 256 texts; a batch is not empty, so the number of texts is fuel enough
  unfoldable pub embed_batches :
      (List Text → Result Text (List (List F))) → ℕ → List Text → Result Text (List (List F))
  embed_batches embed_batch zero texts = ok []
  embed_batches embed_batch (suc fuel) [] = ok []
  embed_batches embed_batch (suc fuel) (t ∷ ts) = embed_batch (take 256 (t ∷ ts)) >>= λ vectors.
      embed_batches embed_batch fuel (drop 256 (t ∷ ts)) >>= λ more. ok (vectors ++ more)

  unfoldable pub embed_sentences : SemanticChunker F → List Sentence → Result Text (List (List F))
  unfolding embed_batches
  embed_sentences sc sentences =
      let texts = window_texts sc.window_size sentences 0 sentences in
      embed_batches sc.embed_batch (length texts) texts

module _ {F : Type 0} (floats : Floats F) where
  -- the loop over two vectors of one length
  abbrev pub cosine_sums : F × F × F → List F → List F → F × F × F
  cosine_sums sums [] w = sums
  cosine_sums sums (a ∷ v) [] = sums
  cosine_sums (dot, norm_a, norm_b) (a ∷ v) (b ∷ w) =
      cosine_sums
        (
          floats.plus dot (floats.times a b),
          floats.plus norm_a (floats.times a a),
          floats.plus norm_b (floats.times b b),
        )
        v w

  abbrev pub ratio : F × F × F → F
  ratio (dot, norm_a, norm_b) =
      if floats.is_zero norm_a || floats.is_zero norm_b
      then floats.zero
      else floats.over dot (floats.times (floats.sqrt norm_a) (floats.sqrt norm_b))

  unfoldable pub cosine : List F → List F → F
  cosine a b =
      if not (length a == length b) || length a == 0
      then floats.zero
      else ratio (cosine_sums (floats.zero, floats.zero, floats.zero) a b)

  abbrev pub similarities : List (List F) → List F
  similarities [] = []
  similarities (v ∷ []) = []
  similarities (v ∷ w ∷ vs) = cosine v w ∷ similarities (w ∷ vs)

  abbrev pub sums : F × F → List F → F × F
  sums acc [] = acc
  sums (sum, sum_sq) (s ∷ ss) = sums (floats.plus sum s, floats.plus sum_sq (floats.times s s)) ss

  abbrev pub not_below_zero : F → F
  not_below_zero v = if floats.below v floats.zero then floats.zero else v

  -- the mean and the standard deviation
  unfoldable pub spread : List F → F × F
  spread ss =
      let m = floats.of_ℕ (length ss) in
      let (sum, sum_sq) = sums (floats.zero, floats.zero) ss in
      (
        floats.over sum m,
        floats.sqrt (
            not_below_zero
              (floats.over (floats.minus sum_sq (floats.over (floats.times sum sum) m)) m)),
      )

  -- the positions behind the similarities below the threshold
  abbrev pub breaks_from : F → ℕ → List F → List ℕ
  breaks_from threshold i [] = []
  breaks_from threshold i (s ∷ ss) =
      let rest = breaks_from threshold (i + 1) ss in
      if floats.below s threshold then (i + 1) ∷ rest else rest

  -- estimateTokens(segText) < minChunkTokens, for a positive minimum
  abbrev pub too_short : ℕ → List Sentence → Bool
  too_short least segment = ltb (estimate_tokens (join_sentences segment)) least

  -- the loop over the inner breakpoints, with the last one kept
  unfoldable pub merge_from : ℕ → List Sentence → ℕ → List ℕ → List ℕ
  merge_from least sentences last [] = length sentences ∷ []
  merge_from least sentences last (b ∷ bs) =
      let skipped = merge_from least sentences last bs in
      let kept = b ∷ merge_from least sentences b bs in
      if too_short least (between sentences last b) then skipped else kept

  -- breakpoints from 0 over the inner ones to the number of sentences
  abbrev pub merge_short_segments : ℤ → List Sentence → ℕ → List ℕ → List ℕ
  merge_short_segments least sentences n [] = 0 ∷ n ∷ []
  merge_short_segments (pos (suc m)) sentences n (b ∷ bs) =
      0 ∷ merge_from (suc m) sentences 0 (b ∷ bs)
  merge_short_segments (pos zero) sentences n (b ∷ bs) = 0 ∷ ((b ∷ bs) ++ n ∷ [])
  merge_short_segments (negsuc m) sentences n (b ∷ bs) = 0 ∷ ((b ∷ bs) ++ n ∷ [])

  unfoldable pub find_breakpoints : SemanticChunker F → List (List F) → List Sentence → List ℕ
  unfolding cosine spread merge_from
  find_breakpoints sc vectors sentences =
      let n = length vectors in
      let ss = similarities vectors in
      let (mean, std) = spread ss in
      let threshold = floats.minus mean (floats.times sc.threshold_factor std) in
      let inner = breaks_from threshold 0 ss in
      if leb n 2 || floats.below std floats.hundredth
      then 0 ∷ n ∷ []
      else merge_short_segments sc.min_chunk_tokens sentences n inner

-- sentences[from:to], and the sentence at `from`, which the code reads too
unfoldable pub group_at : List Sentence → ℕ → ℕ → Result Fault (List Sentence)
group_at sentences from to =
    if leb from to && (leb to (length sentences) && ltb from (length sentences))
    then ok (between sentences from to)
    else err slice_out_of_range

abbrev pub start_of : List Sentence → ℕ
start_of [] = 0
start_of (s ∷ ss) = s.start_pos

module _ {F : Type 0} (floats : Floats F) (sc : SemanticChunker F) (chunk_size : ℕ) where
  abbrev pub fallback : Text → ℕ → Result Fault (List Chunk)
  fallback content start = ok (split_into_chunks chunk_size [] content start)

  -- a group of sentences: one chunk, or split again by `split`
  abbrev pub group_chunks :
      (Text → ℕ → Result Fault (List Chunk)) → ℕ → List Sentence → Result Fault (List Chunk)
  group_chunks split start group =
      let text = join_sentences group in
      let at = start + start_of group in
      if leb (estimate_tokens text) chunk_size
      then ok (make_chunk [] text at ∷ [])
      else if leb 2 (length group)
      then split text at
      else fallback text at

  -- buildChunksFromSentences, from the breakpoint `from` on
  abbrev pub build_from :
      (Text → ℕ → Result Fault (List Chunk))
      → List Sentence
      → ℕ
      → ℕ
      → List ℕ
      → Result Fault (List Chunk)
  build_from split sentences start from [] = ok []
  build_from split sentences start from (to ∷ bs) = group_at sentences from to >>= λ group.
      group_chunks split start group >>= λ chunks.
      build_from split sentences start to bs >>= λ more. ok (chunks ++ more)

  -- two breakpoints are the ends of the text: nothing to split at
  abbrev pub build_chunks :
      (Text → ℕ → Result Fault (List Chunk))
      → Text
      → List Sentence
      → ℕ
      → List ℕ
      → Result Fault (List Chunk)
  build_chunks split content sentences start (a ∷ b ∷ c ∷ bs) =
      build_from split sentences start a (b ∷ c ∷ bs)
  build_chunks split content sentences start _ = fallback content start

  abbrev pub with_vectors :
      (Text → ℕ → Result Fault (List Chunk))
      → Text
      → List Sentence
      → ℕ
      → Result Text (List (List F))
      → Result Fault (List Chunk)
  with_vectors split content sentences start (err e) = fallback content start
  with_vectors split content sentences start (ok vectors) =
      if length vectors == length sentences
      then build_chunks split content sentences start (find_breakpoints floats sc vectors sentences)
      else fallback content start

  abbrev pub with_sentences :
      (Text → ℕ → Result Fault (List Chunk)) → Text → ℕ → List Sentence → Result Fault (List Chunk)
  with_sentences split content start (s ∷ t ∷ ss) =
      with_vectors split content (s ∷ t ∷ ss) start (embed_sentences sc (s ∷ t ∷ ss))
  with_sentences split content start _ = fallback content start

  -- a group that is split again is shorter than the content
  unfoldable pub semantic_split : ℕ → Text → ℕ → Result Fault (List Chunk)
  unfolding split_into_chunks make_chunk embed_sentences find_breakpoints split_sentences group_at
  semantic_split zero content start = err out_of_fuel
  semantic_split (suc fuel) content start =
      let split = with_sentences (semantic_split fuel) content start (split_sentences content) in
      if is_empty (trim_space content)
      then ok []
      else if leb (estimate_tokens content) chunk_size
      then ok (make_chunk [] content start ∷ [])
      else split

module _ {F : Type 0} (floats : Floats F) where
  unfoldable pub semantic_chunk :
      SemanticChunker F → Text → ChunkOptions → Result Fault (List Chunk)
  unfolding semantic_split normalise apply_overlap
  semantic_chunk sc raw opts =
      let content = replace_crlf raw in
      let sizes = normalise opts in
      let chunks =
        semantic_split floats sc sizes.chunk_size (suc (length content)) content 0 >>= λ chunks.
        ok (apply_overlap sizes.chunk_overlap (number_from 0 chunks)) in
      if is_empty (trim_space content) then err empty_content else chunks
