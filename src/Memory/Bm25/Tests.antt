-- ===== src/Memory/Bm25/Tests.antt =====
-- The theorem on the scores at a small index, and runs of the code.
use awesome_agent.Prelude.{
  ℕ, ◌+◌, ◌-◌, ◌*◌, ◌/◌, ◌≡◌, refl, Bool, true, List, [], ◌∷◌, map, Text, codes, All, ◌==◌,
}
use awesome_agent.Memory.Bm25.{
  Floats, Tokenizer, ScoredDoc, Bm25Scorer, new_bm25_scorer, build_index, search_docs,
}
use awesome_agent.Memory.Bm25.Scores.{Agrees}
use awesome_agent.Memory.Bm25.Index.{search_docs-build_index}

abbrev whole : Floats ℕ
whole = record {
  zero = 0;
  half = 0;
  one = 1;
  default_k1 = 1;
  default_b = 0;
  of_ℕ = λ n. n;
  plus = λ a b. a + b;
  minus = λ a b. a - b;
  times = λ a b. a * b;
  over = λ a b. a / b;
  log = λ a. a;
  sqrt = λ a. a;
  is_zero = λ a. a == 0;
}

-- each character is a token
abbrev letters : Tokenizer
letters = record {
  cut_for_index = λ s. map (λ c. c ∷ []) s;
  cut_for_query = λ s. map (λ c. c ∷ []) s;
}

abbrev docs : List Text
docs = codes "abba" ∷ codes "b" ∷ codes "c" ∷ []

abbrev built : Bm25Scorer ℕ
built = build_index whole docs (new_bm25_scorer whole letters)

search_docs-build_index_example :
    All (Agrees whole built (codes "aba")) (search_docs whole (λ rs. rs) built (codes "aba") 2)
search_docs-build_index_example =
    search_docs-build_index whole (λ rs. rs) (λ P rs h. h) docs (new_bm25_scorer whole letters)
      (codes "aba") 2

search_run :
    map (λ (r : ScoredDoc ℕ). r.doc_id) (search_docs whole (λ rs. rs) built (codes "aba") 0)
    ≡ 0 ∷ 1 ∷ []
unfolding search_docs build_index new_bm25_scorer awesome_agent.Prelude.lookup
    awesome_agent.Prelude.insert awesome_agent.Prelude.text_eq awesome_agent.Prelude.contains
    awesome_agent.Memory.Bm25.value_at awesome_agent.Memory.Bm25.set_at
search_run = refl
