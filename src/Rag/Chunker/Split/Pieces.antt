-- ===== src/Rag/Chunker/Split/Pieces.antt =====
-- What the loops over paragraphs and lines do with the text, and how large their chunks are.
use awesome_agent.Prelude.{
  ℕ, ◌+◌, ◌≤◌, ◌≡◌, ◌≢◌, refl, ap, ◌∙◌, ◌⊎◌, inl, inr, Bool, true, false, not, ◌&&◌, List, [], ◌∷◌,
  ◌++◌, map, append_assoc, Text, text_eq_refl, contains, length, drop, drop-append, is_empty, keep,
  ltb, if◌then◌else◌, Bool-cases, All, All-mono, arith, if_true, if_false,
}
use awesome_agent.Go.Strings.{join}
use awesome_agent.Rag.Chunker.Chunk.{Chunk}
use awesome_agent.Rag.Chunker.Tokens.{estimate_tokens}
use awesome_agent.Rag.Chunker.Split.{make_chunk, join_buf, emit_pieces, is_last}

-- the text of a chunk behind the path of its headings
abbrev pub body_of : Text → Chunk → Text
body_of path c = drop (length path) c.content

abbrev pub not_empty : Text → Bool
not_empty s = not (is_empty s)

abbrev with_buf : Text → List Text → List Text
with_buf buf pieces = if is_empty buf then pieces else buf ∷ pieces

join-cons :
    (sep x : Text) (ys : List Text) → ys ≢ [] → join sep (x ∷ ys) ≡ x ++ (sep ++ join sep ys)
join-cons sep x [] h = absurd (h refl)
join-cons sep x (y ∷ ys) h = refl

join_merge :
    (sep x y : Text) (ys : List Text) → join sep ((x ++ (sep ++ y)) ∷ ys) ≡ join sep (x ∷ y ∷ ys)
join_merge sep x y [] = refl
join_merge sep x y (z ∷ ys) = simp append_assoc

contains-cons :
    (x : Text) (xs : List Text) (p : Text) → contains xs p ≡ true → contains (x ∷ xs) p ≡ true
unfolding contains
contains-cons x xs p h = ground arith

All-contains : (xs : List Text) → All (λ p. contains xs p ≡ true) xs
All-contains [] = tt
All-contains (x ∷ xs) = (
  unfold contains in ground (arith, text_eq_refl x),
  All-mono (contains-cons x xs) xs (All-contains xs),
)

pub body_of-make_chunk :
    (path body : Text) (start : ℕ) → body_of path (make_chunk path body start) ≡ body
unfolding make_chunk
body_of-make_chunk path body start = drop-append path body

module _ (chunk_size : ℕ) (path sep : Text) where
  emit_pieces-skip :
      (piece : Text) (pieces : List Text) (buf : Text) (start at : ℕ)
      → is_empty piece ≡ true
      → emit_pieces chunk_size path sep (piece ∷ pieces) buf start at
        ≡ emit_pieces chunk_size path sep pieces buf start at
  unfolding emit_pieces
  emit_pieces-skip piece pieces buf start at h = if_true (is_empty piece) _ _ h

  -- what a round does with a piece that is not empty
  abbrev too_large : Text → Text → Bool
  too_large buf piece =
      ltb chunk_size (estimate_tokens (join_buf sep buf piece)) && not (is_empty buf)

  abbrev next_at : ℕ → Text → List Text → ℕ
  next_at at piece pieces = at + length piece + (if is_last pieces then 0 else length sep)

  emit_pieces-flush :
      (piece : Text) (pieces : List Text) (buf : Text) (start at : ℕ)
      → is_empty piece ≡ false
      → too_large buf piece ≡ true
      → emit_pieces chunk_size path sep (piece ∷ pieces) buf start at
        ≡ make_chunk path buf start
          ∷ emit_pieces chunk_size path sep pieces piece at (next_at at piece pieces)
  unfolding emit_pieces
  emit_pieces-flush piece pieces buf start at h k =
      if_false (is_empty piece) _ _ h ∙ if_true (too_large buf piece) _ _ k

  emit_pieces-join :
      (piece : Text) (pieces : List Text) (buf : Text) (start at : ℕ)
      → is_empty piece ≡ false
      → too_large buf piece ≡ false
      → emit_pieces chunk_size path sep (piece ∷ pieces) buf start at
        ≡ emit_pieces chunk_size path sep pieces
            (join_buf sep buf piece)
            start
            (next_at at piece pieces)
  unfolding emit_pieces
  emit_pieces-join piece pieces buf start at h k =
      if_false (is_empty piece) _ _ h ∙ if_false (too_large buf piece) _ _ k

  is_empty-join_buf :
      (buf piece : Text) → is_empty piece ≡ false → is_empty (join_buf sep buf piece) ≡ false
  is_empty-join_buf [] piece h = h
  is_empty-join_buf (c ∷ buf) piece h = refl

  emit_pieces-end :
      (buf : Text) (start at : ℕ)
      → is_empty buf ≡ false
      → emit_pieces chunk_size path sep [] buf start at ≡ make_chunk path buf start ∷ []
  unfolding emit_pieces
  emit_pieces-end buf start at h = if_false (is_empty buf) _ _ h

  emit_pieces-nil : (start at : ℕ) → emit_pieces chunk_size path sep [] [] start at ≡ []
  unfolding emit_pieces
  emit_pieces-nil start at = refl

  too_large-not_empty : (buf piece : Text) → too_large buf piece ≡ true → is_empty buf ≡ false
  too_large-not_empty buf piece h = ground arith

  join-with_buf :
      (buf piece : Text) (ps : List Text)
      → is_empty piece ≡ false
      → join sep (with_buf (join_buf sep buf piece) ps) ≡ join sep (with_buf buf (piece ∷ ps))
  join-with_buf [] piece ps h = ap (join sep) (if_false (is_empty piece) ps (piece ∷ ps) h)
  join-with_buf (c ∷ buf) piece ps h = join_merge sep (c ∷ buf) piece ps

  emit_pieces-ne-nil :
      (pieces : List Text) (buf : Text) (start at : ℕ)
      → is_empty buf ≡ false
      → map (body_of path) (emit_pieces chunk_size path sep pieces buf start at) ≢ []
  emit_pieces-ne-nil [] buf start at h = rw (emit_pieces-end buf start at h) (λ e. cc)
  emit_pieces-ne-nil (piece ∷ pieces) buf start at h = elim (Bool-cases (is_empty piece)) [
    | inl e ↦
        rw (emit_pieces-skip piece pieces buf start at e) (emit_pieces-ne-nil pieces buf start at h)
    | inr e ↦ elim (Bool-cases (too_large buf piece)) [
      | inl k ↦ rw (emit_pieces-flush piece pieces buf start at e k) (λ q. cc)
      | inr k ↦ rw (emit_pieces-join piece pieces buf start at e k) (
          emit_pieces-ne-nil pieces (join_buf sep buf piece) start (next_at at piece pieces)
            (is_empty-join_buf buf piece e))
    ]
  ]

  join-emit_from :
      (pieces : List Text) (buf : Text) (start at : ℕ)
      → join sep (map (body_of path) (emit_pieces chunk_size path sep pieces buf start at))
        ≡ join sep (with_buf buf (keep not_empty pieces))
  join-emit_from [] [] start at = rw (emit_pieces-nil start at)
  join-emit_from [] (c ∷ buf) start at =
      rw (emit_pieces-end (c ∷ buf) start at refl) (body_of-make_chunk path (c ∷ buf) start)
  join-emit_from (piece ∷ pieces) buf start at = elim (Bool-cases (is_empty piece)) [
    | inl e ↦
        rw (emit_pieces-skip piece pieces buf start at e, e) (join-emit_from pieces buf start at)
    | inr e ↦ elim (Bool-cases (too_large buf piece)) [
      | inl k ↦
          let at' = next_at at piece pieces in
          rw
            (
              emit_pieces-flush piece pieces buf start at e k,
              e,
              too_large-not_empty buf piece k,
              body_of-make_chunk path buf start,
            )
            (join-cons sep buf _ (emit_pieces-ne-nil pieces piece at at' e)
              ∙ ap (λ t. buf ++ (sep ++ t))
                  (join-emit_from pieces piece at at'
                    ∙ ap (join sep)
                        (if_false (is_empty piece) _ (piece ∷ keep not_empty pieces) e)))
      | inr k ↦
          rw (emit_pieces-join piece pieces buf start at e k, e)
            (join-emit_from pieces (join_buf sep buf piece) start (next_at at piece pieces)
              ∙ join-with_buf buf piece (keep not_empty pieces) e)
    ]
  ]

  -- No text is lost: the bodies of the chunks, joined by the separator, are the pieces that are not
  -- empty, joined by it.
  pub join-emit_pieces :
      (pieces : List Text) (start at : ℕ)
      → join sep (map (body_of path) (emit_pieces chunk_size path sep pieces [] start at))
        ≡ join sep (keep not_empty pieces)
  join-emit_pieces pieces start at = join-emit_from pieces [] start at

  -- the chunk is within the size, or its body is one of the pieces
  abbrev pub FitsOrPiece : List Text → Chunk → Type 0
  FitsOrPiece all c = (c.token_est ≤ chunk_size) ⊎ (contains all (body_of path c) ≡ true)

  abbrev FitsBuf : List Text → Text → Type 0
  FitsBuf all buf = (estimate_tokens buf ≤ chunk_size) ⊎ (contains all buf ≡ true)

  FitsOrPiece-make_chunk :
      (all : List Text) (buf : Text) (start : ℕ)
      → FitsBuf all buf
      → FitsOrPiece all (make_chunk path buf start)
  FitsOrPiece-make_chunk all buf start (inl h) = unfold make_chunk in inl h
  FitsOrPiece-make_chunk all buf start (inr h) = inr (rw (body_of-make_chunk path buf start) h)

  FitsBuf-join_buf :
      (all : List Text) (buf piece : Text)
      → too_large buf piece ≡ false
      → contains all piece ≡ true
      → FitsBuf all (join_buf sep buf piece)
  FitsBuf-join_buf all [] piece h k = inr k
  FitsBuf-join_buf all (c ∷ buf) piece h k = inl (ground arith)

  FitsOrPiece-emit_from :
      (all pieces : List Text) (buf : Text) (start at : ℕ)
      → All (λ p. contains all p ≡ true) pieces
      → (is_empty buf ≡ true) ⊎ FitsBuf all buf
      → All (FitsOrPiece all) (emit_pieces chunk_size path sep pieces buf start at)
  FitsOrPiece-emit_from all [] [] start at h k = rw (emit_pieces-nil start at) tt
  FitsOrPiece-emit_from all [] (c ∷ buf) start at h (inl k) = cc
  FitsOrPiece-emit_from all [] (c ∷ buf) start at h (inr k) =
      rw (emit_pieces-end (c ∷ buf) start at refl)
        (FitsOrPiece-make_chunk all (c ∷ buf) start k, tt)
  FitsOrPiece-emit_from all (piece ∷ pieces) buf start at (hp, h) k =
      elim (Bool-cases (is_empty piece)) [
        | inl e ↦
            rw (emit_pieces-skip piece pieces buf start at e)
              (FitsOrPiece-emit_from all pieces buf start at h k)
        | inr e ↦ elim (Bool-cases (too_large buf piece)) [
          | inl q ↦ rw (emit_pieces-flush piece pieces buf start at e q) (
            FitsOrPiece-make_chunk all buf start
                (not_empty_fits k (too_large-not_empty buf piece q)),
            FitsOrPiece-emit_from all pieces piece at (next_at at piece pieces) h (inr (inr hp)),
          )
          | inr q ↦ rw (emit_pieces-join piece pieces buf start at e q) (
              FitsOrPiece-emit_from all pieces (join_buf sep buf piece) start
                (next_at at piece pieces) h (inr (FitsBuf-join_buf all buf piece q hp)))
        ]
      ]
    where
      not_empty_fits :
          (is_empty buf ≡ true) ⊎ FitsBuf all buf → is_empty buf ≡ false → FitsBuf all buf
      not_empty_fits (inl a) b = cc
      not_empty_fits (inr a) b = a

  -- Every chunk is within the size, or it is a single piece.
  pub FitsOrPiece-emit_pieces :
      (pieces : List Text) (start at : ℕ)
      → All (FitsOrPiece pieces) (emit_pieces chunk_size path sep pieces [] start at)
  FitsOrPiece-emit_pieces pieces start at =
      FitsOrPiece-emit_from pieces pieces [] start at (All-contains pieces) (inl refl)
