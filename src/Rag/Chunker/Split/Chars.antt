-- ===== src/Rag/Chunker/Split/Chars.antt =====
-- The cut by characters divides the text: nothing is lost, and the positions are exact.
use awesome_agent.Prelude.{
  ℕ, zero, suc, ◌+◌, ◌≤◌, ◌≡◌, refl, max, Option, none, some, List, [], ◌∷◌, pos, Text, length,
  take, drop, length-take, length-drop, arith,
}
use awesome_agent.Rag.Chunker.Chunk.{Chunk}
use awesome_agent.Rag.Chunker.Split.{
  char_tokens, make_chunk, take_tokens, to_stop, or_zero, cut_length, char_chunks, emit_char_chunks,
}
use awesome_agent.Rag.Chunker.Split.Pieces.{body_of, body_of-make_chunk}

-- The chunks cut the text, which starts at position `start`, into pieces that are not empty, in
-- order and with no gap, and their positions are those of the pieces.
abbrev pub Tiles : Text → ℕ → List Chunk → Text → Type 0
Tiles path start [] text = text ≡ []
Tiles path start (c ∷ cs) text =
    (c.start_pos ≡ pos start)
    × (c.end_pos ≡ start + length (body_of path c))
    × (1 ≤ length (body_of path c))
    × (body_of path c ≡ take (length (body_of path c)) text)
    × Tiles path (start + length (body_of path c)) cs (drop (length (body_of path c)) text)

take_tokens-le :
    (target tok : ℕ) (prev : Option ℕ) (s : Text) → take_tokens target tok prev s ≤ length s
unfolding take_tokens
take_tokens-le target tok prev [] = omega arith
take_tokens-le target tok prev (c ∷ s) =
    ground (arith, take_tokens-le target (tok + char_tokens prev c) (some c) s)

to_stop-le : (window : ℕ) (s : Text) → or_zero (to_stop window s) ≤ length s
unfolding to_stop
to_stop-le zero s = omega arith
to_stop-le (suc window) [] = omega arith
to_stop-le (suc window) (c ∷ s) = ground (arith, to_stop-le window s)

cut_length_lem :
    (target : ℕ) (s : Text)
    → cut_length target s
      ≡ max 1 (take_tokens target 0 none s)
        + or_zero (to_stop target (drop (max 1 (take_tokens target 0 none s)) s))
unfolding cut_length
cut_length_lem target s = refl

cut_length_bounds :
    (target c : ℕ) (s : Text)
    → (1 ≤ cut_length target (c ∷ s)) × (cut_length target (c ∷ s) ≤ length (c ∷ s))
cut_length_bounds target c s =
    let n = max 1 (take_tokens target 0 none (c ∷ s)) in
    omega (
      arith,
      cut_length_lem target (c ∷ s),
      take_tokens-le target 0 none (c ∷ s),
      to_stop-le target (drop n (c ∷ s)),
      length-drop n (c ∷ s),
    )

module _ (chunk_size : ℕ) (path : Text) where
  Tiles-cons :
      (n start : ℕ) (text : Text) (cs : List Chunk)
      → 1 ≤ n
      → n ≤ length text
      → Tiles path (start + n) cs (drop n text)
      → Tiles path start (make_chunk path (take n text) start ∷ cs) text
  Tiles-cons n start text cs lo hi h =
      let len : length (take n text) ≡ n = omega (arith, length-take n text) in
      unfold make_chunk in
      (
        refl,
        rw (body_of-make_chunk path (take n text) start),
        rw (body_of-make_chunk path (take n text) start, len) lo,
        rw (body_of-make_chunk path (take n text) start, len),
        rw (body_of-make_chunk path (take n text) start, len) h,
      )

  char_chunks-cons :
      (fuel c : ℕ) (s : Text) (start : ℕ)
      → char_chunks chunk_size path (suc fuel) (c ∷ s) start ≡ (
          let n = cut_length (max 10 chunk_size) (c ∷ s) in
          make_chunk path (take n (c ∷ s)) start
          ∷ char_chunks chunk_size path fuel (drop n (c ∷ s)) (start + n))
  unfolding char_chunks
  char_chunks-cons fuel c s start = refl

  Tiles-char_chunks :
      (fuel : ℕ) (s : Text) (start : ℕ)
      → length s ≤ fuel
      → Tiles path start (char_chunks chunk_size path fuel s start) s
  Tiles-char_chunks zero [] start h = unfold char_chunks in refl
  Tiles-char_chunks zero (c ∷ s) start h = absurd (omega arith)
  Tiles-char_chunks (suc fuel) [] start h = unfold char_chunks in refl
  Tiles-char_chunks (suc fuel) (c ∷ s) start h =
      let n = cut_length (max 10 chunk_size) (c ∷ s) in
      let (lo, hi) = cut_length_bounds (max 10 chunk_size) c s in
      rw (char_chunks-cons fuel c s start) (
        Tiles-cons n start (c ∷ s) (char_chunks chunk_size path fuel (drop n (c ∷ s)) (start + n))
          lo hi
          (Tiles-char_chunks fuel (drop n (c ∷ s)) (start + n)
            (omega (arith, length-drop n (c ∷ s)))))

  -- The chunks of the cut by characters tile the text, whatever the size.
  pub Tiles-emit_char_chunks :
      (body : Text) (start : ℕ)
      → Tiles path start (emit_char_chunks chunk_size path body start) body
  unfolding emit_char_chunks
  Tiles-emit_char_chunks body start = Tiles-char_chunks (length body) body start (omega arith)
