-- ===== src/Rag/Chunker/Sentences.antt =====
-- The sentences of semantic.go: splitSentences and englishSentenceEnd.
pub mod Tiling
use awesome_agent.Prelude.{
  ℕ, zero, suc, ◌+◌, Bool, true, false, not, ◌&&◌, ◌||◌, Option, none, some, List, [], ◌∷◌, ◌++◌,
  Text, length, take, drop, is_empty, leb, ◌==◌, if◌then◌else◌,
}
use awesome_agent.Rag.Chunker.Tokens.{is_blank}

pub record Sentence : Type 0 where
  pub text : Text
  pub start_pos : ℕ
  pub end_pos : ℕ

abbrev pub is_digit : ℕ → Bool
is_digit r = leb b'0' r && leb r b'9'

-- A to Z, and А to Я
abbrev pub is_upper : ℕ → Bool
is_upper r = (leb b'A' r && leb r b'Z') || (leb 0x410 r && leb r 0x42F)

abbrev pub starts_with : ℕ → Text → Bool
starts_with c [] = false
starts_with c (d ∷ s) = d == c

abbrev pub is_digit? : Option ℕ → Bool
is_digit? none = false
is_digit? (some r) = is_digit r

-- what follows the mark, `n` characters behind it: the length up to the next sentence, if one starts
unfoldable pub english_sentence_end : ℕ → Text → Option ℕ
english_sentence_end n [] = some n
english_sentence_end n (c ∷ s) =
    let further = english_sentence_end (n + 1) s in
    if c == 32 || c == 9 then further else if c == 10 || is_upper c then some n else none

-- 。 ！ ？ ； …
abbrev pub is_cjk_end : ℕ → Bool
is_cjk_end r = r == 0x3002 || r == 0xFF01 || r == 0xFF1F || r == 0xFF1B || r == 0x2026

-- nextStart - i, where the text from i on ends a sentence; `prev` is the character before it, and
-- `started` says whether the sentence has characters already
unfoldable pub sentence_end : Option ℕ → Bool → Text → Option ℕ
unfolding english_sentence_end
sentence_end prev started [] = none
sentence_end prev started (r ∷ s) =
    if is_cjk_end r
    then some 1
    else if r == 0x2014 && starts_with 0x2014 s
    then some 2
    else if r == b'.' && (starts_with b'.' s && starts_with b'.' (drop 1 s))
    then some 3
    else if r == b'.' || r == b'!' || r == b'?'
    then (if r == b'.' && is_digit? prev then none else english_sentence_end 1 s)
    else if r == 10 && starts_with 10 s
    then some 2
    else if r == 10 && started
    then some 1
    else none

unfoldable pub trim_blanks : Text → Text
unfolding is_blank
trim_blanks [] = []
trim_blanks (c ∷ s) =
    let rest = trim_blanks s in if is_empty rest && is_blank c then [] else c ∷ rest

abbrev pub last_char : Option ℕ → Text → Option ℕ
last_char prev [] = prev
last_char prev (c ∷ s) = last_char (some c) s

-- the last sentence, without the blanks behind it
abbrev pub last_sentence : Text → ℕ → List Sentence
last_sentence text start =
    if is_empty text
    then []
    else record { text = text; start_pos = start; end_pos = start + length text } ∷ []

-- The loop: `cur` is the sentence so far, which starts at `start`. Each round takes a character at
-- least.
unfoldable pub sentences_from : ℕ → Option ℕ → Text → ℕ → Text → List Sentence
unfolding sentence_end trim_blanks
sentences_from fuel prev cur start [] = last_sentence (trim_blanks cur) start
sentences_from zero prev cur start (c ∷ s) = []
sentences_from (suc fuel) prev cur start (c ∷ s) =
    elim (sentence_end prev (not (is_empty cur)) (c ∷ s)) [
      | none ↦ sentences_from fuel (some c) (cur ++ c ∷ []) start s
      | some n ↦
          let next = start + length cur + n in
          record { text = cur ++ take n (c ∷ s); start_pos = start; end_pos = next }
          ∷ sentences_from fuel (last_char prev (take n (c ∷ s))) [] next (drop n (c ∷ s))
    ]

unfoldable pub split_sentences : Text → List Sentence
unfolding sentences_from
split_sentences content = sentences_from (length content) none [] 0 content

abbrev pub join_sentences : List Sentence → Text
join_sentences [] = []
join_sentences (s ∷ ss) = s.text ++ join_sentences ss
