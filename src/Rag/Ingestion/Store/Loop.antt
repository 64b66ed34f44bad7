-- ===== src/Rag/Ingestion/Store/Loop.antt =====
-- What the loop over the chunks of a document leaves in the tables.
use awesome_agent.Prelude.{
  ℕ, suc, ◌≤◌, ◌≡◌, refl, sym, ap, subst, ◌∙◌, inl, inr, true, Option, none, some, List, [], ◌∷◌,
  ◌++◌, append_assoc, append-nil, Text, Dict, text_eq, lookup, Result, ok, err, All, arith,
  Bool-cases,
}
use awesome_agent.Rag.Chunker.Chunk.{Chunk}
use awesome_agent.Rag.Ingestion.Store.{
  Document, ChunkRow, VectorPoint, Database, Failures, StoreError, document_not_saved,
  chunk_not_saved, vector_missing, vectors_not_stored, not_marked_pending, not_marked_ready,
  put_chunk, chunk_row, point_of, with_point, save_next, save_chunks,
}
use awesome_agent.Rag.Ingestion.Store.Rows.{insert-fresh, lookup-append-other, Own}

-- the rows of the chunks from the i-th on
abbrev pub rows_from : (ℕ → Text) → Text → Document → ℕ → List Chunk → Dict ChunkRow
rows_from new_id now doc i [] = []
rows_from new_id now doc i (c ∷ cs) =
    (new_id i, chunk_row new_id now doc i c) ∷ rows_from new_id now doc (suc i) cs

-- no two identifiers are the same
abbrev pub Distinct : (ℕ → Text) → Type 0
Distinct new_id = (i j : ℕ) → text_eq (new_id i) (new_id j) ≡ true → i ≡ j

-- from the i-th on, no identifier is in the table
abbrev pub Unused : (ℕ → Text) → ℕ → Dict ChunkRow → Type 0
Unused new_id i rows = (j : ℕ) → i ≤ j → lookup (new_id j) rows ≡ none

Unused-append :
    (new_id : ℕ → Text) (i : ℕ) (row : ChunkRow) (rows : Dict ChunkRow)
    → Distinct new_id
    → Unused new_id i rows
    → Unused new_id (suc i) (rows ++ (new_id i, row) ∷ [])
Unused-append new_id i row rows distinct unused j h =
    elim (Bool-cases (text_eq (new_id i) (new_id j))) [
      | inl same ↦ absurd (omega (arith, h, distinct i j same))
      | inr other ↦
          lookup-append-other (new_id j) (new_id i) row rows (unused j (omega (arith, h))) other
    ]

module _ {F : Type 0} (fails : Failures) (new_id : ℕ → Text) (now : Text) (doc : Document) where
  abbrev pub points_from : ℕ → List Chunk → List (List F) → List (VectorPoint F)
  points_from i (c ∷ cs) (v ∷ vs) = point_of fails new_id now doc i c v ∷ points_from (suc i) cs vs
  points_from i [] vs = []
  points_from i (c ∷ cs) [] = []

  -- what the loop over the chunks leaves: all rows after the old ones, or some that are of the document
  abbrev pub Saved :
      ℕ
      → List Chunk
      → List (List F)
      → Database F
      → Result StoreError (List (VectorPoint F)) × Database F
      → Type 0
  Saved i cs vs db (ok points, db') =
      (points ≡ points_from i cs vs)
      × (db' ≡ record db { chunks = db.chunks ++ rows_from new_id now doc i cs })
  Saved i cs vs db (err (chunk_not_saved k e), db') =
      (rows : Dict ChunkRow) × All (Own doc.id) rows
      × (db' ≡ record db { chunks = db.chunks ++ rows })
  Saved i cs vs db (err vector_missing, db') =
      (rows : Dict ChunkRow) × All (Own doc.id) rows
      × (db' ≡ record db { chunks = db.chunks ++ rows })
  Saved i cs vs db (err (document_not_saved e), db') = ⊥
  Saved i cs vs db (err (vectors_not_stored e), db') = ⊥
  Saved i cs vs db (err (not_marked_pending e m), db') = ⊥
  Saved i cs vs db (err (not_marked_ready e), db') = ⊥

  put_chunk-last :
      (i : ℕ) (c : Chunk) (db : Database F)
      → Unused new_id i db.chunks
      → put_chunk (chunk_row new_id now doc i c) db
        ≡ record db { chunks = db.chunks ++ (new_id i, chunk_row new_id now doc i c) ∷ [] }
  put_chunk-last i c db unused =
      ap (λ (rows : Dict ChunkRow). record db { chunks = rows })
        (insert-fresh (new_id i) (chunk_row new_id now doc i c) db.chunks (unused i (omega arith)))

  Saved-with_point :
      (i : ℕ) (c : Chunk) (cs : List Chunk) (v : List F) (vs : List (List F)) (db : Database F)
      (r : Result StoreError (List (VectorPoint F)) × Database F)
      → Saved
          (suc i)
          cs
          vs
          (record db { chunks = db.chunks ++ (new_id i, chunk_row new_id now doc i c) ∷ [] })
          r
      → Saved i
          (c ∷ cs)
          (v ∷ vs)
          db
          (with_point fails new_id now (point_of fails new_id now doc i c v) r)
  Saved-with_point i c cs v vs db (ok ps, db') (points, same) = (
    ap (λ (ps : List (VectorPoint F)). point_of fails new_id now doc i c v ∷ ps) points,
    same ∙ ap (λ (rows : Dict ChunkRow). record db { chunks = rows }) (append_assoc db.chunks _ _),
  )
  Saved-with_point i c cs v vs db (err (chunk_not_saved k e), db') (rows, own, same) = (
    (new_id i, chunk_row new_id now doc i c) ∷ rows,
    (refl, own),
    same ∙ ap (λ (rows : Dict ChunkRow). record db { chunks = rows }) (append_assoc db.chunks _ _),
  )
  Saved-with_point i c cs v vs db (err vector_missing, db') (rows, own, same) = (
    (new_id i, chunk_row new_id now doc i c) ∷ rows,
    (refl, own),
    same ∙ ap (λ (rows : Dict ChunkRow). record db { chunks = rows }) (append_assoc db.chunks _ _),
  )
  Saved-with_point i c cs v vs db (err (document_not_saved e), db') h = h
  Saved-with_point i c cs v vs db (err (vectors_not_stored e), db') h = h
  Saved-with_point i c cs v vs db (err (not_marked_pending e m), db') h = h
  Saved-with_point i c cs v vs db (err (not_marked_ready e), db') h = h

  Saved-save_next :
      (o : Option Text) (i : ℕ) (c : Chunk) (cs : List Chunk) (vs : List (List F)) (db : Database F)
      (continue : List (List F)
        → Database F
        → Result StoreError (List (VectorPoint F)) × Database F)
      → Unused new_id i db.chunks
      → ((vs : List (List F)) (db : Database F)
          → Unused new_id (suc i) db.chunks
          → Saved (suc i) cs vs db (continue vs db))
      → Distinct new_id
      → Saved i (c ∷ cs) vs db (save_next fails new_id now o doc i c vs db continue)
  Saved-save_next (some e) i c cs vs db continue unused saved distinct = (
    [],
    tt,
    ap (λ (rows : Dict ChunkRow). record db { chunks = rows }) (sym (append-nil db.chunks)),
  )
  Saved-save_next none i c cs [] db continue unused saved distinct =
      (_, (refl, tt), put_chunk-last i c db unused)
  Saved-save_next none i c cs (v ∷ vs) db continue unused saved distinct =
      Saved-with_point i c cs v vs db _ (
        subst
          (λ (x : Database F).
            Saved (suc i) cs vs x (continue vs (put_chunk (chunk_row new_id now doc i c) db)))
          (put_chunk-last i c db unused)
          (saved vs (put_chunk (chunk_row new_id now doc i c) db) (
            subst (λ (x : Database F). Unused new_id (suc i) x.chunks)
              (sym (put_chunk-last i c db unused))
              (Unused-append new_id i (chunk_row new_id now doc i c) db.chunks distinct unused))))

  pub Saved-save_chunks :
      (cs : List Chunk) (i : ℕ) (vs : List (List F)) (db : Database F)
      → Distinct new_id
      → Unused new_id i db.chunks
      → Saved i cs vs db (save_chunks fails new_id now doc i cs vs db)
  unfolding save_chunks
  Saved-save_chunks [] i vs db distinct unused = (
    refl,
    ap (λ (rows : Dict ChunkRow). record db { chunks = rows }) (sym (append-nil db.chunks)),
  )
  Saved-save_chunks (c ∷ cs) i vs db distinct unused =
      Saved-save_next (fails.save_chunk i) i c cs vs db
        (save_chunks fails new_id now doc (suc i) cs) unused
        (λ ws d u. Saved-save_chunks cs (suc i) ws d distinct u) distinct
