-- ===== src/Tools/Chain/Refs.antt =====
-- extractStepsRefs of tools/chain.go. Which characters are letters and digits (package unicode) is
-- the parameter `is_word`, which holds for `_` too.
use awesome_agent.Prelude.{
  ℕ, zero, suc, Bool, Option, none, some, List, [], ◌∷◌, Text, codes, drop, length, has_prefix,
  if◌then◌else◌,
}

abbrev pub steps_prefix : Text
steps_prefix = codes "$steps."

-- what follows the first `$steps.` of a text (strings.Index and a slice)
unfoldable pub after_steps : Text → Option Text
after_steps [] = none
after_steps (c ∷ s) =
    if has_prefix (c ∷ s) steps_prefix then some (drop 7 (c ∷ s)) else after_steps s

module _ (is_word : ℕ → Bool) where
  -- the word at the start of a text, and what follows it
  unfoldable pub span_word : Text → Text × Text
  span_word [] = ([], [])
  span_word (c ∷ s) =
      let (w, rest) = span_word s in if is_word c then (c ∷ w, rest) else ([], c ∷ s)

  unfoldable pub refs_loop : ℕ → Text → List Text
  unfolding after_steps span_word has_prefix
  refs_loop zero s = []
  refs_loop (suc fuel) s = elim (after_steps s) [
    | none ↦ []
    | some rest ↦ let (w, tail) = span_word rest in w ∷ refs_loop fuel tail
  ]

  -- each round takes the seven characters of the prefix at least
  unfoldable pub extract_steps_refs : Text → List Text
  unfolding refs_loop
  extract_steps_refs template = refs_loop (suc (length template)) template
