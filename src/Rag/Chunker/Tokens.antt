-- ===== src/Rag/Chunker/Tokens.antt =====
-- estimateTokens, isCJK and estimateRuneTokens of recursive.go.
pub mod Laws
use awesome_agent.Prelude.{
  ℕ, ◌+◌, ◌/◌, max, Bool, true, false, ◌&&◌, ◌||◌, List, [], ◌∷◌, Text, leb, ◌==◌, if◌then◌else◌,
}

abbrev between : ℕ → ℕ → ℕ → Bool
between lo hi r = leb lo r && leb r hi

unfoldable pub is_cjk : ℕ → Bool
is_cjk r =
    between 0x4E00 0x9FFF r
    || between 0x3400 0x4DBF r
    || between 0x20000 0x2A6DF r
    || between 0x2A700 0x2B73F r
    || between 0x2B740 0x2B81F r
    || between 0x2B820 0x2CEAF r
    || between 0xF900 0xFAFF r

-- space, tab, newline, carriage return
unfoldable pub is_blank : ℕ → Bool
is_blank r = r == 32 || r == 9 || r == 10 || r == 13

-- The loop, with `inWord`: the number of ideographs and of words of the rest.
unfoldable pub count_tokens : Bool → Text → ℕ
count_tokens in_word [] = 0
count_tokens in_word (r ∷ s) =
    let ideograph = count_tokens false s + 1 in
    let blank = count_tokens false s in
    let inside = count_tokens true s in
    if is_cjk r
    then ideograph
    else if is_blank r
    then blank
    else if in_word
    then inside
    else inside + 1

unfoldable pub estimate_tokens : Text → ℕ
unfolding count_tokens is_cjk is_blank
estimate_tokens s = max 1 (count_tokens false s)

unfoldable pub estimate_rune_tokens : ℕ → ℕ
estimate_rune_tokens rune_count = max 1 (rune_count / 2)
