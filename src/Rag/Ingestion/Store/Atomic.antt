-- ===== src/Rag/Ingestion/Store/Atomic.antt =====
-- What store leaves of a document: all of it, or what its cleaning does.
use awesome_agent.Prelude.{
  Bool, true, false, ℕ, zero, ◌≡◌, refl, sym, ap, subst, ◌∙◌, Option, none, some, List, [], ◌∷◌,
  ◌++◌, append-nil, Text, Dict, lookup, delete, keep, keep-append, length, Result, ok, err, All,
}
use awesome_agent.Rag.Chunker.Chunk.{Chunk}
use awesome_agent.Rag.Ingestion.Store.{
  Document, Status, processing, vector_pending, ready, DocumentRow, ChunkRow, VectorPoint, Database,
  Failures, IngestResult, StoreError, document_not_saved, chunk_not_saved, vector_missing,
  vectors_not_stored, not_marked_pending, not_marked_ready, of_other, put_document, delete_document,
  put_points, set_status, save_chunks, clean_up, mark_pending, mark_ready, stored_result,
  store_vectors, store_from, after_chunks, document_row, store_document,
}
use awesome_agent.Rag.Ingestion.Store.Rows.{
  insert-fresh, lookup-last, insert-last, delete-last, Other, Own, keep-Other, keep-Own,
}
use awesome_agent.Rag.Ingestion.Store.Loop.{
  rows_from, Distinct, Unused, points_from, Saved, Saved-save_chunks,
}

module _ {F : Type 0} (fails : Failures) (new_id : ℕ → Text) (now : Text) (doc : Document)
    (sha : Text) (db : Database F) where
  -- the database with the document in this status, its chunks, and these points
  abbrev pub with_document : Status → List Chunk → Dict (VectorPoint F) → Database F
  with_document status chunks points = record {
    documents =
        db.documents
        ++ (doc.id, record (document_row now doc (length chunks) sha) { status = status }) ∷ [];
    chunks = db.chunks ++ rows_from new_id now doc zero chunks;
    points = points;
  }

  abbrev pub new_points : List Chunk → List (List F) → Dict (VectorPoint F)
  new_points chunks vectors =
      put_points (points_from fails new_id now doc zero chunks vectors) db.points

  -- the database with the row of the document as it is first written
  abbrev pub with_row : List Chunk → Database F
  with_row chunks = record db {
    documents = db.documents ++ (doc.id, document_row now doc (length chunks) sha) ∷ [];
  }

  -- after the cleaning: nothing of the document, or some of its chunks where foreign keys are not
  -- enforced, or these and its row where the cleaning fails
  abbrev pub Cleaned : List Chunk → Option Text → Bool → Database F → Type 0
  Cleaned chunks none true d = d ≡ db
  Cleaned chunks none false d =
      (rows : Dict ChunkRow) × All (Own doc.id) rows
      × (d ≡ record db { chunks = db.chunks ++ rows })
  Cleaned chunks (some e) foreign_keys d =
      (rows : Dict ChunkRow) × All (Own doc.id) rows
      × (d ≡ record (with_row chunks) { chunks = db.chunks ++ rows })

  -- what store leaves, for each of its results
  abbrev pub Stored :
      List Chunk → List (List F) → Result StoreError IngestResult × Database F → Type 0
  Stored chunks vectors (err (document_not_saved e), db') = db' ≡ db
  Stored chunks vectors (err (chunk_not_saved i e), db') =
      Cleaned chunks fails.cleanup fails.foreign_keys db'
  Stored chunks vectors (err vector_missing, db') =
      Cleaned chunks fails.cleanup fails.foreign_keys db'
  Stored chunks vectors (err (vectors_not_stored e), db') =
      db' ≡ with_document vector_pending chunks db.points
  Stored chunks vectors (err (not_marked_pending e m), db') =
      db' ≡ with_document processing chunks db.points
  Stored chunks vectors (err (not_marked_ready e), db') =
      db' ≡ with_document processing chunks (new_points chunks vectors)
  Stored chunks vectors (ok result, db') =
      (result ≡ stored_result doc (length chunks))
      × (db' ≡ with_document ready chunks (new_points chunks vectors))

  put_document-last :
      (chunks : List Chunk)
      → lookup doc.id db.documents ≡ none
      → put_document (document_row now doc (length chunks) sha) db ≡ record db {
        documents = db.documents ++ (doc.id, document_row now doc (length chunks) sha) ∷ [];
      }
  put_document-last chunks fresh =
      ap (λ (rows : Dict DocumentRow). record db { documents = rows })
        (insert-fresh doc.id (document_row now doc (length chunks) sha) db.documents fresh)

  -- the document and some of its chunks are deleted again
  Cleaned-delete_document :
      (foreign_keys : Bool) (chunks : List Chunk) (rows : Dict ChunkRow)
      → lookup doc.id db.documents ≡ none
      → All (Other doc.id) db.chunks
      → All (Own doc.id) rows
      → Cleaned chunks none foreign_keys (
          delete_document foreign_keys doc.id
            (record (with_row chunks) { chunks = db.chunks ++ rows }))
  unfolding delete_document
  Cleaned-delete_document true chunks rows fresh other own =
      let left : delete doc.id (with_row chunks).documents ≡ db.documents =
        delete-last doc.id (document_row now doc (length chunks) sha) db.documents fresh in
      let kept : keep (of_other doc.id) (db.chunks ++ rows) ≡ db.chunks = rw (
        keep-append (of_other doc.id) db.chunks rows,
        keep-Other doc.id db.chunks other,
        keep-Own doc.id rows own,
        append-nil db.chunks,
      ) in
      rw (left, kept)
  Cleaned-delete_document false chunks rows fresh other own =
      let left : delete doc.id (with_row chunks).documents ≡ db.documents =
        delete-last doc.id (document_row now doc (length chunks) sha) db.documents fresh in
      (
        rows,
        own,
        ap (λ (ds : Dict DocumentRow). record db { documents = ds; chunks = db.chunks ++ rows })
            left,
      )

  set_status-last :
      (status : Status) (chunks : List Chunk) (points : Dict (VectorPoint F))
      → lookup doc.id db.documents ≡ none
      → set_status status doc.id (with_document processing chunks points)
        ≡ with_document status chunks points
  unfolding set_status
  set_status-last status chunks points fresh =
      let row = document_row now doc (length chunks) sha in
      rw (
        lookup-last doc.id row db.documents fresh,
        insert-last doc.id (record row { status = status }) row db.documents fresh,
      )

  Stored-mark_pending :
      (o : Option Text) (e : Text) (chunks : List Chunk) (vectors : List (List F)) (d : Database F)
      → lookup doc.id db.documents ≡ none
      → d ≡ with_document processing chunks db.points
      → Stored chunks vectors (mark_pending fails new_id now o e doc.id d)
  Stored-mark_pending (some m) e chunks vectors d fresh same = same
  Stored-mark_pending none e chunks vectors d fresh same =
      ap (set_status vector_pending doc.id) same
      ∙ set_status-last vector_pending chunks db.points fresh

  Stored-mark_ready :
      (o : Option Text) (chunks : List Chunk) (vectors : List (List F)) (d : Database F)
      → lookup doc.id db.documents ≡ none
      → d ≡ with_document processing chunks (new_points chunks vectors)
      → Stored chunks vectors (mark_ready fails new_id now o doc (length chunks) d)
  Stored-mark_ready (some e) chunks vectors d fresh same = same
  Stored-mark_ready none chunks vectors d fresh same = (
    refl,
    ap (set_status ready doc.id) same
        ∙ set_status-last ready chunks (new_points chunks vectors) fresh,
  )

  Stored-store_vectors :
      (o : Option Text) (chunks : List Chunk) (vectors : List (List F))
      (points : List (VectorPoint F)) (d : Database F)
      → lookup doc.id db.documents ≡ none
      → points ≡ points_from fails new_id now doc zero chunks vectors
      → d ≡ with_document processing chunks db.points
      → Stored chunks vectors (store_vectors fails new_id now o doc (length chunks) points d)
  Stored-store_vectors (some e) chunks vectors points d fresh ps same =
      Stored-mark_pending fails.mark_pending e chunks vectors d fresh same
  Stored-store_vectors none chunks vectors points d fresh ps same =
      Stored-mark_ready fails.mark_ready chunks vectors _ fresh (rw (same, ps))

  Cleaned-clean_up :
      (o : Option Text) (chunks : List Chunk) (d : Database F) (rows : Dict ChunkRow)
      → lookup doc.id db.documents ≡ none
      → All (Other doc.id) db.chunks
      → All (Own doc.id) rows
      → d ≡ record (with_row chunks) { chunks = db.chunks ++ rows }
      → Cleaned chunks o fails.foreign_keys (clean_up fails new_id now o doc.id d)
  Cleaned-clean_up (some e) chunks d rows fresh other own same = (rows, own, same)
  Cleaned-clean_up none chunks d rows fresh other own same =
      subst
        (λ (x : Database F).
          Cleaned chunks none fails.foreign_keys (delete_document fails.foreign_keys doc.id x))
        (sym same) (Cleaned-delete_document fails.foreign_keys chunks rows fresh other own)

  Stored-after_chunks :
      (chunks : List Chunk) (vectors : List (List F))
      (r : Result StoreError (List (VectorPoint F)) × Database F)
      → lookup doc.id db.documents ≡ none
      → All (Other doc.id) db.chunks
      → Saved fails new_id now doc zero chunks vectors (with_row chunks) r
      → Stored chunks vectors (after_chunks fails new_id now doc (length chunks) r)
  Stored-after_chunks chunks vectors (ok points, d) fresh other (ps, same) =
      Stored-store_vectors fails.upsert chunks vectors points d fresh ps same
  Stored-after_chunks chunks vectors (err (chunk_not_saved i e), d) fresh other (rows, own, same) =
      Cleaned-clean_up fails.cleanup chunks d rows fresh other own same
  Stored-after_chunks chunks vectors (err vector_missing, d) fresh other (rows, own, same) =
      Cleaned-clean_up fails.cleanup chunks d rows fresh other own same
  Stored-after_chunks chunks vectors (err (document_not_saved e), d) fresh other h = absurd h
  Stored-after_chunks chunks vectors (err (vectors_not_stored e), d) fresh other h = absurd h
  Stored-after_chunks chunks vectors (err (not_marked_pending e m), d) fresh other h = absurd h
  Stored-after_chunks chunks vectors (err (not_marked_ready e), d) fresh other h = absurd h

  Stored-store_from :
      (o : Option Text) (chunks : List Chunk) (vectors : List (List F))
      → lookup doc.id db.documents ≡ none
      → All (Other doc.id) db.chunks
      → Distinct new_id
      → Unused new_id zero db.chunks
      → Stored chunks vectors (store_from fails new_id now o doc chunks vectors sha db)
  Stored-store_from (some e) chunks vectors fresh other distinct unused = refl
  Stored-store_from none chunks vectors fresh other distinct unused =
      Stored-after_chunks chunks vectors _ fresh other (
        subst
          (λ (d : Database F).
            Saved fails new_id now doc zero chunks vectors (with_row chunks)
              (save_chunks fails new_id now doc zero chunks vectors d))
          (sym (put_document-last chunks fresh))
          (Saved-save_chunks fails new_id now doc chunks zero vectors (with_row chunks) distinct
            unused))

  -- Let the identifier of the document be new, and those of its chunks be new and distinct. Whichever
  -- operations of the stores fail, what store leaves is fixed by its result. If the document is not
  -- saved, the database is as it was. If a chunk is not saved or a vector is missing, the deletion of
  -- the document decides: the database is as it was, or holds some of the chunks where foreign keys are
  -- not enforced, or the document too where the deletion fails. After that it holds the document with a
  -- row for every chunk in their order, in the status `vector_pending` if the vectors failed, `ready`
  -- with the points of all chunks if store succeeds, and `processing` if the status was not changed.
  pub Stored-store_document :
      (chunks : List Chunk) (vectors : List (List F))
      → lookup doc.id db.documents ≡ none
      → All (Other doc.id) db.chunks
      → Distinct new_id
      → Unused new_id zero db.chunks
      → Stored chunks vectors (store_document fails new_id now doc chunks vectors sha db)
  unfolding store_document
  Stored-store_document chunks vectors = Stored-store_from fails.save_document chunks vectors
