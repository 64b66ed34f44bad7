-- ===== src/Rag/Ingestion/Store/Rows.antt =====
-- Rows that are put last into a table, and taken out again.
use awesome_agent.Prelude.{
  ◌≡◌, refl, false, none, some, [], ◌∷◌, ◌++◌, Text, Dict, text_eq, text_eq_refl, text_eq_iff,
  lookup, insert, delete, keep, All, arith,
}
use awesome_agent.Rag.Ingestion.Store.{ChunkRow, of_other}

module _ {V : Type 0} where
  pub insert-fresh :
      (k : Text) (v : V) (m : Dict V) → lookup k m ≡ none → insert k v m ≡ m ++ (k, v) ∷ []
  unfolding lookup insert
  insert-fresh k v [] h = refl
  insert-fresh k v ((j, w) ∷ m) h = ground (arith, insert-fresh k v m)

  pub lookup-last :
      (k : Text) (v : V) (m : Dict V) → lookup k m ≡ none → lookup k (m ++ (k, v) ∷ []) ≡ some v
  unfolding lookup
  lookup-last k v [] h = ground (arith, text_eq_refl k)
  lookup-last k v ((j, w) ∷ m) h = ground (arith, lookup-last k v m)

  pub lookup-append-other :
      (j k : Text) (v : V) (m : Dict V)
      → lookup j m ≡ none
      → text_eq k j ≡ false
      → lookup j (m ++ (k, v) ∷ []) ≡ none
  unfolding lookup
  lookup-append-other j k v [] h e = ground arith
  lookup-append-other j k v ((i, w) ∷ m) h e = ground (arith, lookup-append-other j k v m)

  pub insert-last :
      (k : Text) (v w : V) (m : Dict V)
      → lookup k m ≡ none
      → insert k v (m ++ (k, w) ∷ []) ≡ m ++ (k, v) ∷ []
  unfolding lookup insert
  insert-last k v w [] h = ground (arith, text_eq_refl k)
  insert-last k v w ((j, x) ∷ m) h = ground (arith, insert-last k v w m)

  pub delete-last :
      (k : Text) (v : V) (m : Dict V) → lookup k m ≡ none → delete k (m ++ (k, v) ∷ []) ≡ m
  unfolding lookup delete
  delete-last k v [] h = ground (arith, text_eq_refl k)
  delete-last k v ((j, w) ∷ m) h = ground (arith, delete-last k v m)

-- the row belongs to another document, or to this one
abbrev pub Other : Text → Text × ChunkRow → Type 0
Other id (key, row) = text_eq row.doc_id id ≡ false

abbrev pub Own : Text → Text × ChunkRow → Type 0
Own id (key, row) = row.doc_id ≡ id

pub keep-Other :
    (id : Text) (rows : Dict ChunkRow) → All (Other id) rows → keep (of_other id) rows ≡ rows
keep-Other id [] h = refl
keep-Other id (r ∷ rows) (other, h) = ground (arith, keep-Other id rows h)

pub keep-Own : (id : Text) (rows : Dict ChunkRow) → All (Own id) rows → keep (of_other id) rows ≡ []
keep-Own id [] h = refl
keep-Own id ((key, row) ∷ rows) (own, h) =
    ground (arith, text_eq_iff row.doc_id id, keep-Own id rows h)
