-- ===== src/Memory/Bm25/Index.antt =====
-- The index that is built names each document once for a term, and so Search and Score agree on it.
use awesome_agent.Prelude.{
  ℕ, zero, suc, ◌+◌, ◌≤◌, ◌<◌, sym, subst, Option, none, some, List, [], ◌∷◌, Text, Dict, text_eq,
  lookup, insert, lookup-insert, length, All, arith, if_elim,
}
use awesome_agent.Memory.Bm25.{
  Floats, Tokenizer, ScoredDoc, Table, set_at, or_value, Bm25Scorer, count_terms, post_terms,
  index_doc, index_from, build_index, search_docs,
}
use awesome_agent.Memory.Bm25.Tables.{set_at-Keyed, set_at-Below, Below-mono, PostedBelow}
use awesome_agent.Memory.Bm25.Scores.{Agrees, Indexed, All-Agrees-search_docs}

module _ {F : Type 0} (floats : Floats F) where
  abbrev AllPosted : ℕ → Dict (Table F) → Type 0
  AllPosted n idx = (term : Text) → PostedBelow n (lookup term idx)

  PostedBelow-mono : (n o : ℕ) (p : Option (Table F)) → n ≤ o → PostedBelow n p → PostedBelow o p
  PostedBelow-mono n o none h k = tt
  PostedBelow-mono n o (some posting) h (keyed, below) = (keyed, Below-mono n o posting h below)

  PostedBelow-set_at :
      (n d : ℕ) (freq : F) (o : Option (Table F))
      → d < n
      → PostedBelow n o
      → PostedBelow n (some (set_at d freq (or_value [] o)))
  PostedBelow-set_at n d freq none h k = (set_at-Keyed d freq [] tt, set_at-Below n d freq [] h tt)
  PostedBelow-set_at n d freq (some posting) h (keyed, below) =
      (set_at-Keyed d freq posting keyed, set_at-Below n d freq posting h below)

  AllPosted-post_terms :
      (n d : ℕ) (tf : Dict F) (idx : Dict (Table F))
      → d < n
      → AllPosted n idx
      → AllPosted n (post_terms floats d tf idx)
  unfolding post_terms
  AllPosted-post_terms n d [] idx h k = k
  AllPosted-post_terms n d ((term, freq) ∷ tf) idx h k =
      let posting = set_at d freq (or_value [] (lookup term idx)) in
      AllPosted-post_terms n d tf (insert term posting idx) h (λ t.
        subst (PostedBelow n) (sym (lookup-insert term t posting idx)) (
          if_elim (PostedBelow n) (text_eq term t) (some posting) (lookup t idx)
            (λ q. PostedBelow-set_at n d freq (lookup term idx) h (k term)) (λ q. k t)))

  AllPosted-index_from :
      (tokenizer : Tokenizer) (d : ℕ) (docs : List Text) (state : Dict (Table F) × Table ℕ × ℕ)
      → AllPosted d state.0
      → AllPosted (d + length docs) (index_from floats tokenizer d docs state).0
  unfolding index_from
  AllPosted-index_from tokenizer d [] state h =
      λ t. PostedBelow-mono d (d + 0) (lookup t state.0) (omega arith) (h t)
  AllPosted-index_from tokenizer d (doc ∷ docs) (idx, lengths, total) h =
      let next = index_doc floats tokenizer d doc (idx, lengths, total) in
      let posted : AllPosted (suc d) next.0 =
        AllPosted-post_terms (suc d) d (count_terms floats (tokenizer.cut_for_index doc) []) idx
          (omega arith) (λ t. PostedBelow-mono d (suc d) (lookup t idx) (omega arith) (h t)) in
      let all = AllPosted-index_from tokenizer (suc d) docs next posted in
      λ t.
        PostedBelow-mono (suc d + length docs) (d + suc (length docs))
          (lookup t (index_from floats tokenizer (suc d) docs next).0) (omega arith) (all t)

  build_index-Indexed :
      (docs : List Text) (s : Bm25Scorer F) → Indexed floats (build_index floats docs s)
  unfolding build_index lookup
  build_index-Indexed docs s =
      let all = AllPosted-index_from s.tokenizer zero docs ([], [], zero) (λ t. tt) in
      λ t.
        PostedBelow-mono (0 + length docs) (length docs)
          (lookup t (index_from floats s.tokenizer zero docs ([], [], zero)).0) (omega arith)
          (all t)

  -- Let sort.Slice keep what holds of all results. After BuildIndex, each result of Search, for any
  -- query and any limit, has the very score that Score computes for the query and its document.
  pub search_docs-build_index :
      (sort : List (ScoredDoc F) → List (ScoredDoc F))
      → ((P : ScoredDoc F → Type 0) (rs : List (ScoredDoc F)) → All P rs → All P (sort rs))
      → (docs : List Text) (s : Bm25Scorer F) (query : Text) (top_k : ℕ)
      → All
          (Agrees floats (build_index floats docs s) query)
          (search_docs floats sort (build_index floats docs s) query top_k)
  search_docs-build_index sort sorts docs s query top_k =
      All-Agrees-search_docs floats (build_index floats docs s) sort sorts query top_k
        (build_index-Indexed docs s)
