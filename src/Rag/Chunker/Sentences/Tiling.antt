-- ===== src/Rag/Chunker/Sentences/Tiling.antt =====
-- The sentences follow one another without a gap.
use awesome_agent.Prelude.{
  ℕ, zero, suc, ◌+◌, ◌≤◌, ◌≡◌, refl, sym, ap, ◌∙◌, Bool, true, not, ◌&&◌, ◌||◌, subst, Option, none,
  some, List, [], ◌∷◌, ◌++◌, append_assoc, append-nil, Text, length, length-append, length-take,
  length-drop, take, drop, take-append-drop, is_empty, All, arith, if_elim, Option-cases, inl, inr,
  ◌==◌,
}
use awesome_agent.Rag.Chunker.Tokens.{is_blank}
use awesome_agent.Rag.Chunker.Sentences.{
  Sentence, english_sentence_end, sentence_end, trim_blanks, last_sentence, last_char,
  sentences_from, split_sentences, join_sentences, is_upper, is_digit?, is_cjk_end, starts_with,
}

-- a length that ends a sentence: not zero, and within the text
abbrev EndsWithin : Text → Option ℕ → Type 0
EndsWithin s none = Unit
EndsWithin s (some n) = (1 ≤ n) × (n ≤ length s)

abbrev Behind : ℕ → Text → Option ℕ → Type 0
Behind n s none = Unit
Behind n s (some m) = (n ≤ m) × (m ≤ n + length s)

Behind-suc : (n c : ℕ) (s : Text) (o : Option ℕ) → Behind (n + 1) s o → Behind n (c ∷ s) o
Behind-suc n c s none h = tt
Behind-suc n c s (some m) h = omega arith

Behind-english_sentence_end : (n : ℕ) (s : Text) → Behind n s (english_sentence_end n s)
unfolding english_sentence_end
Behind-english_sentence_end n [] = omega arith
Behind-english_sentence_end n (c ∷ s) =
    if_elim (Behind n (c ∷ s)) (c == 32 || c == 9) _ _
      (λ h. Behind-suc n c s _ (Behind-english_sentence_end (n + 1) s))
      (λ h.
        if_elim (Behind n (c ∷ s)) (c == 10 || is_upper c) (some n) none (λ k. omega arith)
          (λ k. tt))

EndsWithin-Behind : (c : ℕ) (s : Text) (o : Option ℕ) → Behind 1 s o → EndsWithin (c ∷ s) o
EndsWithin-Behind c s none h = tt
EndsWithin-Behind c s (some n) h = omega arith

length-starts_with : (c : ℕ) (s : Text) → starts_with c s ≡ true → 1 ≤ length s
length-starts_with c [] h = cc
length-starts_with c (d ∷ s) h = omega arith

EndsWithin-sentence_end :
    (prev : Option ℕ) (started : Bool) (s : Text) → EndsWithin s (sentence_end prev started s)
unfolding sentence_end
EndsWithin-sentence_end prev started [] = tt
EndsWithin-sentence_end prev started (r ∷ s) =
    let within : (o : Option ℕ) → Type 0 = EndsWithin (r ∷ s) in
    if_elim within (is_cjk_end r) (some 1) _ (λ h. omega arith)
      (λ h.
        if_elim within (r == 0x2014 && starts_with 0x2014 s) (some 2) _
          (λ k. omega (arith, length-starts_with 0x2014 s (ground arith)))
          (λ k.
            if_elim within (r == b'.' && (starts_with b'.' s && starts_with b'.' (drop 1 s)))
              (some 3) _
              (λ l.
                omega (arith, length-starts_with b'.' (drop 1 s) (ground arith), length-drop 1 s))
              (λ l.
                if_elim within (r == b'.' || r == b'!' || r == b'?') _ _
                  (λ m.
                    if_elim within (r == b'.' && is_digit? prev) none _ (λ p. tt)
                      (λ p. EndsWithin-Behind r s _ (Behind-english_sentence_end 1 s)))
                  (λ m.
                    if_elim within (r == 10 && starts_with 10 s) (some 2) _
                      (λ p. omega (arith, length-starts_with 10 s (ground arith)))
                      (λ p.
                        if_elim within (r == 10 && started) (some 1) none (λ q. omega arith)
                          (λ q. tt))))))

is_empty-eq : (s : Text) → is_empty s ≡ true → s ≡ []
is_empty-eq [] h = refl
is_empty-eq (c ∷ s) h = cc

-- what is trimmed is blank
trim_blanks-append :
    (s : Text) → (tail : Text) × (trim_blanks s ++ tail ≡ s) × All (λ c. is_blank c ≡ true) tail
unfolding trim_blanks
trim_blanks-append [] = ([], refl, tt)
trim_blanks-append (c ∷ s) =
    let (tail, e, blank) = trim_blanks-append s in
    if_elim (λ t. (rest : Text) × (t ++ rest ≡ c ∷ s) × All (λ d. is_blank d ≡ true) rest)
      (is_empty (trim_blanks s) && is_blank c) [] (c ∷ trim_blanks s)
      (λ h. (
        c ∷ tail,
        ap (λ t. c ∷ t)
            (sym (ap (λ t. t ++ tail) (is_empty-eq (trim_blanks s) (ground arith))) ∙ e),
        (ground arith, blank),
      ))
      (λ h. (tail, ap (λ t. c ∷ t) e, blank))

-- each starts where the one before it ends, and is not empty
abbrev pub Contiguous : ℕ → List Sentence → Type 0
Contiguous start [] = Unit
Contiguous start (s ∷ ss) =
    (s.start_pos ≡ start)
    × (s.end_pos ≡ start + length s.text)
    × (1 ≤ length s.text)
    × Contiguous (start + length s.text) ss

-- the sentences from `start` on make up the text, but for blanks at its end
abbrev pub Covers : ℕ → Text → List Sentence → Type 0
Covers start text ss =
    Contiguous start ss
    × ((tail : Text) × (join_sentences ss ++ tail ≡ text) × All (λ c. is_blank c ≡ true) tail)

Covers-last_sentence :
    (t tail cur : Text) (start : ℕ)
    → t ++ tail ≡ cur
    → All (λ c. is_blank c ≡ true) tail
    → Covers start cur (last_sentence t start)
Covers-last_sentence [] tail cur start e blank = (tt, (tail, e, blank))
Covers-last_sentence (c ∷ t) tail cur start e blank =
    ((refl, refl, omega arith, tt), (tail, rw append-nil e, blank))

Covers-trimmed : (cur : Text) (start : ℕ) → Covers start cur (last_sentence (trim_blanks cur) start)
Covers-trimmed cur start =
    let (tail, e, blank) = trim_blanks-append cur in
    Covers-last_sentence (trim_blanks cur) tail cur start e blank

Covers-cons :
    (cur text : Text) (start n : ℕ) (ss : List Sentence)
    → 1 ≤ n
    → n ≤ length text
    → Covers (start + length cur + n) (drop n text) ss
    → Covers start (cur ++ text) (
        record { text = cur ++ take n text; start_pos = start; end_pos = start + length cur + n }
        ∷ ss)
Covers-cons cur text start n ss lo hi (c, (tail, e, blank)) =
    let len : length (cur ++ take n text) ≡ length cur + n =
      omega (arith, length-append cur (take n text), length-take n text) in
    (
      (refl, omega arith, omega arith, subst (λ k. Contiguous k ss) (omega arith) c),
      (
        tail,
        append_assoc (cur ++ take n text) (join_sentences ss) tail
            ∙ ap (λ t. (cur ++ take n text) ++ t) e
            ∙ append_assoc cur (take n text) (drop n text)
            ∙ ap (λ t. cur ++ t) (take-append-drop n text),
        blank,
      ),
    )

sentences_from-nil :
    (fuel : ℕ) (prev : Option ℕ) (cur : Text) (start : ℕ)
    → sentences_from fuel prev cur start [] ≡ last_sentence (trim_blanks cur) start
unfolding sentences_from
sentences_from-nil fuel prev cur start = refl

sentences_from-none :
    (fuel : ℕ) (prev : Option ℕ) (cur : Text) (start c : ℕ) (s : Text)
    → sentence_end prev (not (is_empty cur)) (c ∷ s) ≡ none
    → sentences_from (suc fuel) prev cur start (c ∷ s)
      ≡ sentences_from fuel (some c) (cur ++ c ∷ []) start s
unfolding sentences_from
sentences_from-none fuel prev cur start c s h = rw (h, sentences_from)

sentences_from-some :
    (fuel : ℕ) (prev : Option ℕ) (cur : Text) (start c : ℕ) (s : Text) (n : ℕ)
    → sentence_end prev (not (is_empty cur)) (c ∷ s) ≡ some n
    → sentences_from (suc fuel) prev cur start (c ∷ s)
      ≡ record { text = cur ++ take n (c ∷ s); start_pos = start; end_pos = start + length cur + n }
        ∷ sentences_from fuel
            (last_char prev (take n (c ∷ s)))
            []
            (start + length cur + n)
            (drop n (c ∷ s))
unfolding sentences_from
sentences_from-some fuel prev cur start c s n h = rw (h, sentences_from)

Covers-sentences_from :
    (fuel : ℕ) (prev : Option ℕ) (cur : Text) (start : ℕ) (text : Text)
    → length text ≤ fuel
    → Covers start (cur ++ text) (sentences_from fuel prev cur start text)
Covers-sentences_from fuel prev cur start [] h =
    rw (sentences_from-nil fuel prev cur start, append-nil) (Covers-trimmed cur start)
Covers-sentences_from zero prev cur start (c ∷ s) h = absurd (omega arith)
Covers-sentences_from (suc fuel) prev cur start (c ∷ s) h =
    elim (Option-cases (sentence_end prev (not (is_empty cur)) (c ∷ s))) [
      | inl e ↦
          rw (sentences_from-none fuel prev cur start c s e, ← append_assoc cur (c ∷ []) s)
            (Covers-sentences_from fuel (some c) (cur ++ c ∷ []) start s (omega arith))
      | inr (n, e) ↦
          let (lo, hi) : EndsWithin (c ∷ s) (some n) =
            subst (EndsWithin (c ∷ s)) e
              (EndsWithin-sentence_end prev (not (is_empty cur)) (c ∷ s)) in
          rw (sentences_from-some fuel prev cur start c s n e) (
            Covers-cons cur (c ∷ s) start n _ lo hi (
              Covers-sentences_from fuel (last_char prev (take n (c ∷ s))) []
                (start + length cur + n) (drop n (c ∷ s)) (omega (arith, length-drop n (c ∷ s)))))
    ]

-- The sentences of a text follow one another without a gap, from position 0 on, none is empty, their
-- positions are exact, and joined they are the text but for blanks at its end.
pub Covers-split_sentences : (content : Text) → Covers 0 content (split_sentences content)
unfolding split_sentences
Covers-split_sentences content =
    Covers-sentences_from (length content) none [] 0 content (omega arith)
