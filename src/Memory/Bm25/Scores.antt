-- ===== src/Memory/Bm25/Scores.antt =====
-- The scores that Search finds are those of Score.
use awesome_agent.Prelude.{
  ℕ, ◌<◌, ◌≡◌, refl, sym, ap, inl, inr, Bool-cases, if_true, ◌∙◌, false, Option, none, some, List,
  [], ◌∷◌, Text, lookup, length, take, All, All-take, arith, if_elim, if_false, leb, ltb, ==_iff,
  ==_refl, ◌==◌,
}
use awesome_agent.Memory.Bm25.{
  Floats, ScoredDoc, Table, value_at, set_at, or_value, Bm25Scorer, weight, unique_tokens,
  add_posting, add_found, add_terms, scored_docs, take_top, search_docs, add_weight, add_term,
  score_from, score_doc,
}
use awesome_agent.Memory.Bm25.Tables.{
  value_at-set_at, Keyed, set_at-Keyed, Below, set_at-Below, PostedBelow,
}

module _ {F : Type 0} (floats : Floats F) (s : Bm25Scorer F) where
  -- the sum over the terms for a document
  abbrev sum_terms : ℕ → List Text → F → F
  sum_terms d [] total = total
  sum_terms d (t ∷ ts) total = sum_terms d ts (add_term floats s d total (lookup t s.inverted_idx))

  score_from-unique_tokens :
      (d : ℕ) (seen ts : List Text) (total : F)
      → score_from floats s d seen ts total ≡ sum_terms d (unique_tokens floats seen ts) total
  unfolding score_from unique_tokens
  score_from-unique_tokens d seen [] total = refl
  score_from-unique_tokens d seen (t ∷ ts) total = ground (
    arith,
    score_from-unique_tokens d seen ts total,
    score_from-unique_tokens d (t ∷ seen) ts (add_term floats s d total (lookup t s.inverted_idx)),
  )

  -- the score of a document so far
  abbrev score_at : ℕ → Table F → F
  score_at d scores = or_value floats.zero (value_at d scores)

  score_at-add_posting :
      (n d : ℕ) (posting scores : Table F)
      → Keyed posting
      → score_at d (add_posting floats s n posting scores)
        ≡ add_weight floats s n d (score_at d scores) (value_at d posting)
  unfolding add_posting value_at
  score_at-add_posting n d [] scores h = refl
  score_at-add_posting n d ((e, tf) ∷ posting) scores (absent, h) =
      let next = set_at e (floats.plus (score_at e scores) (weight floats s n e tf)) scores in
      let rest = score_at-add_posting n d posting next h in
      elim (Bool-cases (e == d)) [
        | inl q ↦
            let same : e ≡ d = (==_iff e d).0 q in
            rest
            ∙ ap
                (λ (o : Option F).
                  add_weight floats s n d (or_value floats.zero o) (value_at d posting))
                (value_at-set_at e d _ scores ∙ if_true (e == d) _ _ q)
            ∙ ap
                (add_weight floats s n d (floats.plus (score_at e scores) (weight floats s n e tf)))
                (ap (λ (x : ℕ). value_at x posting) (sym same) ∙ absent)
            ∙ ap (λ (x : ℕ). floats.plus (score_at x scores) (weight floats s n x tf)) same
            ∙ ap (add_weight floats s n d (score_at d scores)) (sym (if_true (e == d) _ _ q))
        | inr q ↦
            rest
            ∙ ap
                (λ (o : Option F).
                  add_weight floats s n d (or_value floats.zero o) (value_at d posting))
                (value_at-set_at e d _ scores ∙ if_false (e == d) _ _ q)
            ∙ ap (add_weight floats s n d (score_at d scores)) (sym (if_false (e == d) _ _ q))
      ]

  -- every posting names a document once, and only documents below the count
  abbrev pub Indexed : Type 0
  Indexed = (term : Text) → PostedBelow s.doc_count (lookup term s.inverted_idx)

  score_at-add_found :
      (d : ℕ) (o : Option (Table F)) (scores : Table F)
      → PostedBelow s.doc_count o
      → score_at d (add_found floats s o scores) ≡ add_term floats s d (score_at d scores) o
  score_at-add_found d none scores h = refl
  score_at-add_found d (some posting) scores (keyed, below) =
      score_at-add_posting (length posting) d posting scores keyed

  score_at-add_terms :
      (d : ℕ) (ts : List Text) (scores : Table F)
      → Indexed
      → score_at d (add_terms floats s ts scores) ≡ sum_terms d ts (score_at d scores)
  unfolding add_terms
  score_at-add_terms d [] scores h = refl
  score_at-add_terms d (t ∷ ts) scores h =
      score_at-add_terms d ts (add_found floats s (lookup t s.inverted_idx) scores) h
      ∙ ap (sum_terms d ts) (score_at-add_found d (lookup t s.inverted_idx) scores (h t))

  -- a table of scores as the code keeps it
  abbrev Kept : Table F → Type 0
  Kept scores = Keyed scores × Below s.doc_count scores

  add_posting-Kept :
      (n : ℕ) (posting scores : Table F)
      → Below s.doc_count posting
      → Kept scores
      → Kept (add_posting floats s n posting scores)
  unfolding add_posting
  add_posting-Kept n [] scores h kept = kept
  add_posting-Kept n ((d, tf) ∷ posting) scores (below, h) (keyed, bounded) =
      add_posting-Kept n posting (set_at d _ scores) h
        (set_at-Keyed d _ scores keyed, set_at-Below s.doc_count d _ scores below bounded)

  add_found-Kept :
      (o : Option (Table F)) (scores : Table F)
      → PostedBelow s.doc_count o
      → Kept scores
      → Kept (add_found floats s o scores)
  add_found-Kept none scores h kept = kept
  add_found-Kept (some posting) scores (keyed, below) kept =
      add_posting-Kept (length posting) posting scores below kept

  add_terms-Kept :
      (ts : List Text) (scores : Table F)
      → Indexed
      → Kept scores
      → Kept (add_terms floats s ts scores)
  unfolding add_terms
  add_terms-Kept [] scores h kept = kept
  add_terms-Kept (t ∷ ts) scores h kept =
      add_terms-Kept ts _ h (add_found-Kept (lookup t s.inverted_idx) scores (h t) kept)

  -- the score of a result is what Score computes for its document
  abbrev pub Agrees : Text → ScoredDoc F → Type 0
  Agrees query r = r.score ≡ score_doc floats s query r.doc_id

  none-some : (w : F) → none ≡ some w → ⊥
  none-some w h = cc

  All-scored_docs :
      (P : ScoredDoc F → Type 0) (scores : Table F)
      → Kept scores
      → ((d : ℕ) (v : F)
          → d < s.doc_count
          → value_at d scores ≡ some v
          → P (record { doc_id = d; score = v }))
      → All P (scored_docs floats scores)
  unfolding value_at
  All-scored_docs P [] h k = tt
  All-scored_docs P ((d, v) ∷ scores) ((absent, keyed), (below, bounded)) k = (
    k d v below (if_true (d == d) _ _ (==_refl d)),
    All-scored_docs P scores (keyed, bounded)
        (λ e w b found. k e w b (
          if_elim (λ (o : Option F). o ≡ some w) (d == e) (some v) (value_at e scores)
            (λ q. absurd (
              none-some w
                (sym absent ∙ ap (λ (x : ℕ). value_at x scores) ((==_iff d e).0 q) ∙ found)))
            (λ q. found))),
  )

  Agrees-add_terms :
      (query : Text) (d : ℕ) (v : F)
      → Indexed
      → d < s.doc_count
      → value_at d
          (add_terms floats s (unique_tokens floats [] (s.tokenizer.cut_for_query query)) [])
        ≡ some v
      → v ≡ score_doc floats s query d
  unfolding score_doc value_at
  Agrees-add_terms query d v h below found =
      let tokens = s.tokenizer.cut_for_query query in
      let unique = unique_tokens floats [] tokens in
      let inside : leb s.doc_count d ≡ false = ground (arith, below) in
      sym (ap (or_value floats.zero) found)
      ∙ score_at-add_terms d unique [] h
      ∙ sym (score_from-unique_tokens d [] tokens floats.zero)
      ∙ sym (if_false (leb s.doc_count d) _ _ inside)

  module _ (sort : List (ScoredDoc F) → List (ScoredDoc F))
      (sorts : (P : ScoredDoc F → Type 0) (rs : List (ScoredDoc F))
        → All P rs
        → All P (sort rs)) where
    All-take_top :
        (P : ScoredDoc F → Type 0) (top_k : ℕ) (rs : List (ScoredDoc F))
        → All P rs
        → All P (take_top floats top_k rs)
    All-take_top P top_k rs h =
        if_elim (All P) (ltb 0 top_k) (take top_k rs) rs (λ q. All-take P top_k rs h) (λ q. h)

    pub All-Agrees-search_docs :
        (query : Text) (top_k : ℕ)
        → Indexed
        → All (Agrees query) (search_docs floats sort s query top_k)
    unfolding search_docs
    All-Agrees-search_docs query top_k h =
        let scores =
          add_terms floats s (unique_tokens floats [] (s.tokenizer.cut_for_query query)) [] in
        if_elim (All (Agrees query)) (s.doc_count == 0) []
          (take_top floats top_k (sort (scored_docs floats scores))) (λ q. tt)
          (λ q. All-take_top (Agrees query) top_k (sort (scored_docs floats scores)) (
            sorts (Agrees query) (scored_docs floats scores) (
              All-scored_docs (Agrees query) scores
                (add_terms-Kept (unique_tokens floats [] (s.tokenizer.cut_for_query query)) [] h
                  (tt, tt))
                (λ d v below found. Agrees-add_terms query d v h below found))))
