-- ===== src/Memory/Bm25/Sparse.antt =====
-- memory/retrieval/sparse.go: documents and queries as vectors over terms.
use awesome_agent.Prelude.{
  ℕ, ◌+◌, Option, none, some, List, [], ◌∷◌, Text, Dict, lookup, insert, length, leb, if◌then◌else◌,
}
use awesome_agent.Memory.Bm25.{Floats, Table, value_at, or_value, Bm25Scorer, idf}

module _ {F : Type 0} (floats : Floats F) where
  abbrev pub SparseVector : Type 0
  SparseVector = Dict F

  abbrev pub times_found : F → F → Option F → F
  times_found total weight none = total
  times_found total weight (some other) = floats.plus total (floats.times weight other)

  unfoldable pub dot_from : F → Dict F → Dict F → F
  unfolding lookup
  dot_from total [] b = total
  dot_from total ((term, weight) ∷ a) b = dot_from (times_found total weight (lookup term b)) a b

  abbrev pub dot_product : Dict F → Dict F → F
  dot_product a b = dot_from floats.zero a b

  abbrev pub sum_of_squares : F → Dict F → F
  sum_of_squares total [] = total
  sum_of_squares total ((term, weight) ∷ a) =
      sum_of_squares (floats.plus total (floats.times weight weight)) a

  abbrev pub cosine_of : F → F → F → F
  cosine_of dot a b =
      if floats.is_zero a
      then floats.zero
      else if floats.is_zero b
      then floats.zero
      else floats.over dot (floats.times (floats.sqrt a) (floats.sqrt b))

  unfoldable pub cosine_similarity : Dict F → Dict F → F
  unfolding dot_from
  cosine_similarity [] b = floats.zero
  cosine_similarity (x ∷ a) [] = floats.zero
  cosine_similarity (x ∷ a) (y ∷ b) =
      cosine_of (dot_product (x ∷ a) (y ∷ b)) (sum_of_squares floats.zero (x ∷ a))
        (sum_of_squares floats.zero (y ∷ b))

  abbrev pub put_weight : Bm25Scorer F → ℕ → F → Text → Table F → Dict F → Dict F
  put_weight s d doc_len term posting vec = elim (value_at d posting) [
    | none ↦ vec
    | some tf ↦
        insert term (floats.times (floats.over tf doc_len) (idf floats s (length posting))) vec
  ]

  abbrev pub put_weights : Bm25Scorer F → ℕ → F → Dict (Table F) → Dict F → Dict F
  put_weights s d doc_len [] vec = vec
  put_weights s d doc_len ((term, posting) ∷ idx) vec =
      put_weights s d doc_len idx (put_weight s d doc_len term posting vec)

  -- `none` is a nil vector
  unfoldable pub to_sparse_vector : Bm25Scorer F → ℕ → Option (Dict F)
  unfolding value_at insert
  to_sparse_vector s d =
      let doc_len = floats.of_ℕ (or_value 0 (value_at d s.doc_lengths)) in
      if leb s.doc_count d
      then none
      else if floats.is_zero doc_len
      then some []
      else some (put_weights s d doc_len s.inverted_idx [])

  -- seen[t]++ for each token
  unfoldable pub count_query_tokens : List Text → Dict ℕ → Dict ℕ
  unfolding lookup insert
  count_query_tokens [] seen = seen
  count_query_tokens (t ∷ ts) seen =
      count_query_tokens ts (insert t (or_value 0 (lookup t seen) + 1) seen)

  abbrev pub put_term : Bm25Scorer F → Text → ℕ → Option (Table F) → Dict F → Dict F
  put_term s term qtf none vec = vec
  put_term s term qtf (some posting) vec =
      insert term (floats.times (floats.of_ℕ qtf) (idf floats s (length posting))) vec

  abbrev pub put_terms : Bm25Scorer F → Dict ℕ → Dict F → Dict F
  put_terms s [] vec = vec
  put_terms s ((term, qtf) ∷ seen) vec =
      put_terms s seen (put_term s term qtf (lookup term s.inverted_idx) vec)

  abbrev pub weigh_tokens : Bm25Scorer F → List Text → Option (Dict F)
  weigh_tokens s [] = none
  weigh_tokens s (t ∷ ts) = some (put_terms s (count_query_tokens (t ∷ ts) []) [])

  unfoldable pub query_to_sparse_vector : Bm25Scorer F → Text → Option (Dict F)
  unfolding count_query_tokens lookup insert
  query_to_sparse_vector s query = weigh_tokens s (s.tokenizer.cut_for_query query)
