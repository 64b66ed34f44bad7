-- ===== src/Rag/Chunker/Semantic/Breakpoints.antt =====
-- The breakpoints rise from 0 to the number of sentences, and groups are shorter than the text.
use awesome_agent.Prelude.{
  ℕ, zero, suc, ◌+◌, ◌-◌, ◌≤◌, ◌<◌, ◌≡◌, refl, sym, subst, ℤ, pos, ◌||◌, List, [], ◌∷◌, ◌++◌,
  length, length-append, length-drop, take, drop, arith, if_elim, leb, All, All-drop, ◌⊎◌, inl, inr,
}
use awesome_agent.Rag.Chunker.Sentences.{Sentence, join_sentences}
use awesome_agent.Rag.Chunker.Sentences.Tiling.{Contiguous}
use awesome_agent.Rag.Chunker.Semantic.{
  Floats, SemanticChunker, between, similarities, spread, breaks_from, too_short, merge_from,
  merge_short_segments, find_breakpoints,
}

-- from `a`, each above the one before it, to `n`
abbrev pub Rising : ℕ → ℕ → List ℕ → Type 0
Rising a n [] = a ≡ n
Rising a n (b ∷ bs) = (a < b) × Rising b n bs

-- the same, below `n`
abbrev Inner : ℕ → ℕ → List ℕ → Type 0
Inner a n [] = a < n
Inner a n (b ∷ bs) = (a < b) × Inner b n bs

Inner-weaken : (a b n : ℕ) (bs : List ℕ) → a ≤ b → Inner b n bs → Inner a n bs
Inner-weaken a b n [] h k = omega arith
Inner-weaken a b n (c ∷ bs) h (k, l) = (omega arith, l)

Rising-append : (a n : ℕ) (bs : List ℕ) → Inner a n bs → Rising a n (bs ++ n ∷ [])
Rising-append a n [] h = (h, refl)
Rising-append a n (b ∷ bs) (h, k) = (h, Rising-append b n bs k)

pub Rising-le : (a n : ℕ) (bs : List ℕ) → Rising a n bs → a ≤ n
Rising-le a n [] h = omega arith
Rising-le a n (b ∷ bs) (h, k) = omega (arith, Rising-le b n bs k)

-- 0, then rising to `n`
abbrev pub FromZero : ℕ → List ℕ → Type 0
FromZero n [] = ⊥
FromZero n (a ∷ bs) = (a ≡ 0) × Rising 0 n bs

module _ {F : Type 0} (floats : Floats F) where
  length-similarities : (vs : List (List F)) → length (similarities floats vs) ≡ length vs - 1
  length-similarities [] = omega arith
  length-similarities (v ∷ []) = omega arith
  length-similarities (v ∷ w ∷ vs) = omega (arith, length-similarities (w ∷ vs))

  Inner-breaks_from :
      (threshold : F) (a i n : ℕ) (ss : List F)
      → a ≤ i
      → i + length ss < n
      → Inner a n (breaks_from floats threshold i ss)
  Inner-breaks_from threshold a i n [] h k = omega arith
  Inner-breaks_from threshold a i n (s ∷ ss) h k =
      if_elim (Inner a n) (floats.below s threshold)
        ((i + 1) ∷ breaks_from floats threshold (i + 1) ss)
        (breaks_from floats threshold (i + 1) ss)
        (λ p. (
          omega arith,
          Inner-breaks_from threshold (i + 1) (i + 1) n ss (omega arith) (omega arith),
        ))
        (λ p. Inner-breaks_from threshold a (i + 1) n ss (omega arith) (omega arith))

  Rising-merge_from :
      (least : ℕ) (sentences : List Sentence) (last a : ℕ) (bs : List ℕ)
      → last ≤ a
      → Inner a (length sentences) bs
      → Rising last (length sentences) (merge_from floats least sentences last bs)
  unfolding merge_from
  Rising-merge_from least sentences last a [] h k = (omega arith, refl)
  Rising-merge_from least sentences last a (b ∷ bs) h (k, l) =
      if_elim (Rising last (length sentences)) (too_short floats least (between sentences last b))
        (merge_from floats least sentences last bs) (b ∷ merge_from floats least sentences b bs)
        (λ p. Rising-merge_from least sentences last b bs (omega arith) l)
        (λ p. (omega arith, Rising-merge_from least sentences b b bs (omega arith) l))

  FromZero-merge :
      (least : ℤ) (sentences : List Sentence) (bs : List ℕ)
      → Inner 0 (length sentences) bs
      → FromZero
          (length sentences)
          (merge_short_segments floats least sentences (length sentences) bs)
  FromZero-merge least sentences [] h = (refl, (h, refl))
  FromZero-merge (pos (suc m)) sentences (b ∷ bs) h =
      (refl, Rising-merge_from (suc m) sentences 0 0 (b ∷ bs) (omega arith) h)
  FromZero-merge (pos zero) sentences (b ∷ bs) h =
      (refl, Rising-append 0 (length sentences) (b ∷ bs) h)
  FromZero-merge (ℤ.negsuc m) sentences (b ∷ bs) h =
      (refl, Rising-append 0 (length sentences) (b ∷ bs) h)

  -- For as many vectors as sentences, at least one, the breakpoints rise from 0 to that number.
  pub FromZero-find_breakpoints :
      (sc : SemanticChunker F) (vectors : List (List F)) (sentences : List Sentence)
      → length vectors ≡ length sentences
      → 1 ≤ length sentences
      → FromZero (length sentences) (find_breakpoints floats sc vectors sentences)
  unfolding find_breakpoints
  FromZero-find_breakpoints sc vectors sentences e h =
      let ss = similarities floats vectors in
      let (mean, std) = spread floats ss in
      let threshold = floats.minus mean (floats.times sc.threshold_factor std) in
      if_elim (FromZero (length sentences))
        (leb (length vectors) 2 || floats.below std floats.hundredth) (0 ∷ length vectors ∷ [])
        (merge_short_segments floats sc.min_chunk_tokens sentences (length vectors)
          (breaks_from floats threshold 0 ss))
        (λ p. (refl, (omega arith, e)))
        (λ p.
          subst
            (λ k. FromZero (length sentences) (
              merge_short_segments floats sc.min_chunk_tokens sentences k
                (breaks_from floats threshold 0 ss)))
            (sym e)
            (FromZero-merge sc.min_chunk_tokens sentences (breaks_from floats threshold 0 ss) (
              Inner-breaks_from threshold 0 0 (length sentences) ss (omega arith)
                (omega (arith, length-similarities vectors)))))

-- no sentence is empty
abbrev pub NoEmpty : List Sentence → Type 0
NoEmpty ss = All (λ s. 1 ≤ length s.text) ss

pub NoEmpty-Contiguous : (start : ℕ) (ss : List Sentence) → Contiguous start ss → NoEmpty ss
NoEmpty-Contiguous start [] h = tt
NoEmpty-Contiguous start (s ∷ ss) (a, b, c, d) =
    (c, NoEmpty-Contiguous (start + length s.text) ss d)

length-join-drop :
    (k : ℕ) (ss : List Sentence)
    → NoEmpty ss
    → k ≤ length ss
    → length (join_sentences (drop k ss)) + k ≤ length (join_sentences ss)
length-join-drop zero ss h l = omega arith
length-join-drop (suc k) [] h l = omega arith
length-join-drop (suc k) (s ∷ ss) (p, h) l =
    omega (arith, length-append s.text (join_sentences ss), length-join-drop k ss h (omega arith))

length-join-take :
    (k : ℕ) (ss : List Sentence)
    → NoEmpty ss
    → length (join_sentences (take k ss)) + (length ss - k) ≤ length (join_sentences ss)
length-join-take zero [] h = omega arith
length-join-take zero (s ∷ ss) (p, h) =
    omega (arith, length-append s.text (join_sentences ss), length-join-take zero ss h)
length-join-take (suc k) [] h = omega arith
length-join-take (suc k) (s ∷ ss) (p, h) = omega (
  arith,
  length-append s.text (join_sentences ss),
  length-append s.text (join_sentences (take k ss)),
  length-join-take k ss h,
)

-- A group that is not all of the sentences is shorter than their text.
pub length-join-between :
    (ss : List Sentence) (from to : ℕ)
    → NoEmpty ss
    → from ≤ to
    → to ≤ length ss
    → (1 ≤ from) ⊎ (to < length ss)
    → length (join_sentences (between ss from to)) < length (join_sentences ss)
length-join-between ss from to h a b c =
    let rest = drop from ss in
    let kept = length-join-take (to - from) rest (All-drop _ from ss h) in
    let dropped = length-join-drop from ss h (omega arith) in
    let len = length-drop from ss in elim c [ inl p ↦ omega arith | inr p ↦ omega arith ]
