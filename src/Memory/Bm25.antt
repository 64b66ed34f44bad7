-- ===== src/Memory/Bm25.antt =====
-- memory/retrieval/bm25.go: the inverted index, and the scores of documents for a query.
-- A document is named by its position; an iteration over a map is in the order of its insertions.
pub mod Tables
pub mod Sparse
pub mod Scores
pub mod Index
pub mod Tests
use awesome_agent.Prelude.{
  ℕ, zero, suc, ◌+◌, Bool, true, false, Option, none, some, List, [], ◌∷◌, ◌++◌, map, Text, Dict,
  contains, lookup, insert, length, take, leb, ltb, ◌==◌, if◌then◌else◌,
}

-- a float64: the constants of the formula, the operations, and the order
pub record Floats (F : Type 0) : Type 0 where
  pub zero : F
  pub half : F
  pub one : F
  pub default_k1 : F
  pub default_b : F
  pub of_ℕ : ℕ → F
  pub plus : F → F → F
  pub minus : F → F → F
  pub times : F → F → F
  pub over : F → F → F
  pub log : F → F
  pub sqrt : F → F
  pub is_zero : F → Bool

pub record Tokenizer : Type 0 where
  pub cut_for_index : Text → List Text
  pub cut_for_query : Text → List Text

pub record ScoredDoc (F : Type 0) : Type 0 where
  pub doc_id : ℕ
  pub score : F

abbrev pub Table : Type 0 → Type 0
Table V = List (ℕ × V)

module _ {V : Type 0} where
  unfoldable pub value_at : ℕ → Table V → Option V
  value_at d [] = none
  value_at d ((e, v) ∷ m) = let later = value_at d m in if e == d then some v else later

  unfoldable pub set_at : ℕ → V → Table V → Table V
  set_at d v [] = (d, v) ∷ []
  set_at d v ((e, w) ∷ m) =
      let later = set_at d v m in if e == d then (d, v) ∷ m else (e, w) ∷ later

  abbrev pub or_value : V → Option V → V
  or_value v none = v
  or_value v (some w) = w

-- the texts of the documents, which nothing reads, are left out
pub record Bm25Scorer (F : Type 0) : Type 0 where
  pub k1 : F
  pub b : F
  pub tokenizer : Tokenizer
  pub avg_doc_len : F
  pub inverted_idx : Dict (Table F)
  pub doc_lengths : Table ℕ
  pub doc_count : ℕ

module _ {F : Type 0} (floats : Floats F) where
  unfoldable pub new_bm25_scorer : Tokenizer → Bm25Scorer F
  new_bm25_scorer tokenizer = record {
    k1 = floats.default_k1;
    b = floats.default_b;
    tokenizer = tokenizer;
    avg_doc_len = floats.zero;
    inverted_idx = [];
    doc_lengths = [];
    doc_count = 0;
  }

  -- tf[t]++ for each token
  unfoldable pub count_terms : List Text → Dict F → Dict F
  unfolding lookup insert
  count_terms [] tf = tf
  count_terms (t ∷ ts) tf =
      count_terms ts (insert t (floats.plus (or_value floats.zero (lookup t tf)) floats.one) tf)

  -- the frequencies of a document, written into the index
  unfoldable pub post_terms : ℕ → Dict F → Dict (Table F) → Dict (Table F)
  unfolding lookup insert set_at
  post_terms d [] idx = idx
  post_terms d ((term, freq) ∷ tf) idx =
      post_terms d tf (insert term (set_at d freq (or_value [] (lookup term idx))) idx)

  -- one document of the loop; the index, the lengths and the sum of the lengths
  abbrev pub index_doc :
      Tokenizer → ℕ → Text → Dict (Table F) × Table ℕ × ℕ → Dict (Table F) × Table ℕ × ℕ
  index_doc tokenizer d doc (idx, lengths, total) =
      let tokens = tokenizer.cut_for_index doc in
      (
        post_terms d (count_terms tokens []) idx,
        set_at d (length tokens) lengths,
        total + length tokens,
      )

  unfoldable pub index_from :
      Tokenizer → ℕ → List Text → Dict (Table F) × Table ℕ × ℕ → Dict (Table F) × Table ℕ × ℕ
  unfolding count_terms post_terms set_at
  index_from tokenizer d [] state = state
  index_from tokenizer d (doc ∷ docs) state =
      index_from tokenizer (suc d) docs (index_doc tokenizer d doc state)

  unfoldable pub build_index : List Text → Bm25Scorer F → Bm25Scorer F
  unfolding index_from
  build_index docs s =
      let (idx, lengths, total) = index_from s.tokenizer zero docs ([], [], zero) in
      record s {
        inverted_idx = idx;
        doc_lengths = lengths;
        doc_count = length docs;
        avg_doc_len =
            if ltb 0 (length docs)
            then floats.over (floats.of_ℕ total) (floats.of_ℕ (length docs))
            else s.avg_doc_len;
      }

  -- the inverse document frequency of a term in so many documents
  abbrev pub idf : Bm25Scorer F → ℕ → F
  idf s n =
      let df = floats.of_ℕ n in
      floats.log (
        floats.plus
          (floats.over (floats.plus (floats.minus (floats.of_ℕ s.doc_count) df) floats.half)
            (floats.plus df floats.half))
          floats.one)

  -- what a term with this frequency, in so many documents, adds to the score of a document
  unfoldable pub weight : Bm25Scorer F → ℕ → ℕ → F → F
  unfolding value_at
  weight s n d tf =
      let doc_len = floats.of_ℕ (or_value 0 (value_at d s.doc_lengths)) in
      let numerator = floats.times tf (floats.plus s.k1 floats.one) in
      let part =
        floats.plus (floats.minus floats.one s.b)
          (floats.over (floats.times s.b doc_len) s.avg_doc_len) in
      let denominator = floats.plus tf (floats.times s.k1 part) in
      floats.over (floats.times (idf s n) numerator) denominator

  -- the tokens, each once
  unfoldable pub unique_tokens : List Text → List Text → List Text
  unfolding contains
  unique_tokens seen [] = []
  unique_tokens seen (t ∷ ts) =
      let again = unique_tokens seen ts in
      let first = t ∷ unique_tokens (t ∷ seen) ts in if contains seen t then again else first

  -- scores[docID] += ... for each document of a term
  unfoldable pub add_posting : Bm25Scorer F → ℕ → Table F → Table F → Table F
  unfolding value_at set_at weight
  add_posting s n [] scores = scores
  add_posting s n ((d, tf) ∷ posting) scores =
      add_posting s n posting
        (set_at d (floats.plus (or_value floats.zero (value_at d scores)) (weight s n d tf)) scores)

  abbrev pub add_found : Bm25Scorer F → Option (Table F) → Table F → Table F
  add_found s none scores = scores
  add_found s (some posting) scores = add_posting s (length posting) posting scores

  unfoldable pub add_terms : Bm25Scorer F → List Text → Table F → Table F
  unfolding lookup add_posting
  add_terms s [] scores = scores
  add_terms s (t ∷ ts) scores = add_terms s ts (add_found s (lookup t s.inverted_idx) scores)

  abbrev pub scored_docs : Table F → List (ScoredDoc F)
  scored_docs scores = map (λ entry. record { doc_id = entry.0; score = entry.1 }) scores

  abbrev pub take_top : ℕ → List (ScoredDoc F) → List (ScoredDoc F)
  take_top top_k scored = if ltb 0 top_k then take top_k scored else scored

  -- `sort` is sort.Slice by falling scores
  unfoldable pub search_docs :
      (List (ScoredDoc F) → List (ScoredDoc F)) → Bm25Scorer F → Text → ℕ → List (ScoredDoc F)
  unfolding unique_tokens add_terms
  search_docs sort s query top_k =
      if s.doc_count == 0
      then []
      else take_top top_k
          (sort (scored_docs (add_terms s (unique_tokens [] (s.tokenizer.cut_for_query query)) [])))

  abbrev pub add_weight : Bm25Scorer F → ℕ → ℕ → F → Option F → F
  add_weight s n d total none = total
  add_weight s n d total (some tf) = floats.plus total (weight s n d tf)

  abbrev pub add_term : Bm25Scorer F → ℕ → F → Option (Table F) → F
  add_term s d total none = total
  add_term s d total (some posting) = add_weight s (length posting) d total (value_at d posting)

  unfoldable pub score_from : Bm25Scorer F → ℕ → List Text → List Text → F → F
  unfolding contains lookup value_at weight
  score_from s d seen [] total = total
  score_from s d seen (t ∷ ts) total =
      let again = score_from s d seen ts total in
      let first = score_from s d (t ∷ seen) ts (add_term s d total (lookup t s.inverted_idx)) in
      if contains seen t then again else first

  unfoldable pub score_doc : Bm25Scorer F → Text → ℕ → F
  unfolding score_from
  score_doc s query d =
      if leb s.doc_count d
      then floats.zero
      else score_from s d [] (s.tokenizer.cut_for_query query) floats.zero
