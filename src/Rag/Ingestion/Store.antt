-- ===== src/Rag/Ingestion/Store.antt =====
-- pipeline.go: the tables of documents and chunks, and how a document is stored in them.
pub mod Rows
pub mod Loop
pub mod Atomic
use awesome_agent.Prelude.{
  ℕ, ℤ, zero, suc, Bool, true, false, not, Option, none, some, List, [], ◌∷◌, ◌++◌, Text, Dict,
  codes, text_eq, lookup, insert, delete, keep, length, Result, ok, err, if◌then◌else◌,
}
use awesome_agent.Rag.Chunker.Chunk.{Chunk}

-- what a parser makes of a file
pub record Document : Type 0 where
  pub id : Text
  pub name : Text
  pub format : Text
  pub size : ℕ
  pub content : Text

pub data Status : Type 0 where
  processing : Status
  vector_pending : Status
  ready : Status

-- a row of rag_documents
pub record DocumentRow : Type 0 where
  pub id : Text
  pub name : Text
  pub format : Text
  pub size : ℕ
  pub chunk_count : ℕ
  pub status : Status
  pub sha256 : Text
  pub created_at : Text

-- a row of rag_chunks; no chunk has metadata
pub record ChunkRow : Type 0 where
  pub id : Text
  pub doc_id : Text
  pub chunk_index : ℕ
  pub content : Text
  pub token_est : ℕ
  pub start_pos : ℤ
  pub end_pos : ℕ
  pub created_at : Text

pub record VectorPoint (F : Type 0) : Type 0 where
  pub id : Text
  pub vector : List F
  pub doc_id : Text
  pub doc_name : Text
  pub chunk_index : ℕ

-- the two tables and the collection of vectors
pub record Database (F : Type 0) : Type 0 where
  pub documents : Dict DocumentRow
  pub chunks : Dict ChunkRow
  pub points : Dict (VectorPoint F)

-- The operations of the stores that fail, by what they are asked; such an operation changes nothing.
-- The deletion may run on a connection on which foreign keys are not enforced.
pub record Failures : Type 0 where
  pub find_document : Option Text
  pub save_document : Option Text
  pub save_chunk : ℕ → Option Text
  pub cleanup : Option Text
  pub foreign_keys : Bool
  pub upsert : Option Text
  pub mark_pending : Option Text
  pub mark_ready : Option Text

pub record IngestResult : Type 0 where
  pub doc_id : Text
  pub doc_name : Text
  pub format : Text
  pub chunk_count : ℕ
  pub duplicate : Bool

-- the errors of store; of a missing vector, a panic
pub data StoreError : Type 0 where
  document_not_saved : Text → StoreError
  chunk_not_saved : ℕ → Text → StoreError
  vector_missing : StoreError
  vectors_not_stored : Text → StoreError
  not_marked_pending : Text → Text → StoreError
  not_marked_ready : Text → StoreError

abbrev pub of_other : Text → Text × ChunkRow → Bool
of_other id (key, row) = not (text_eq row.doc_id id)

abbrev pub change_status : Status → Text → Option DocumentRow → Dict DocumentRow → Dict DocumentRow
change_status status id none documents = documents
change_status status id (some row) documents = insert id (record row { status = status }) documents

-- `new_id` is the identifier that uuid.New makes for a chunk
abbrev pub chunk_row : (ℕ → Text) → Text → Document → ℕ → Chunk → ChunkRow
chunk_row new_id now doc i c = record {
  id = new_id i;
  doc_id = doc.id;
  chunk_index = c.index;
  content = c.content;
  token_est = c.token_est;
  start_pos = c.start_pos;
  end_pos = c.end_pos;
  created_at = now;
}

abbrev pub document_row : Text → Document → ℕ → Text → DocumentRow
document_row now doc count sha = record {
  id = doc.id;
  name = doc.name;
  format = doc.format;
  size = doc.size;
  chunk_count = count;
  status = processing;
  sha256 = sha;
  created_at = now;
}

abbrev pub stored_result : Document → ℕ → IngestResult
stored_result doc count = record {
  doc_id = doc.id;
  doc_name = doc.name;
  format = doc.format;
  chunk_count = count;
  duplicate = false;
}

module _ {F : Type 0} where
  abbrev pub put_document : DocumentRow → Database F → Database F
  put_document row db = record db { documents = insert row.id row db.documents }

  abbrev pub put_chunk : ChunkRow → Database F → Database F
  put_chunk row db = record db { chunks = insert row.id row db.chunks }

  -- The chunks refer to their document with ON DELETE CASCADE, which needs foreign keys.
  unfoldable pub delete_document : Bool → Text → Database F → Database F
  unfolding delete text_eq
  delete_document foreign_keys id db = record db {
    documents = delete id db.documents;
    chunks = if foreign_keys then keep (of_other id) db.chunks else db.chunks;
  }

  abbrev pub put_points : List (VectorPoint F) → Dict (VectorPoint F) → Dict (VectorPoint F)
  put_points [] points = points
  put_points (p ∷ ps) points = put_points ps (insert p.id p points)

  -- UPDATE rag_documents SET status = ... WHERE id = ?
  unfoldable pub set_status : Status → Text → Database F → Database F
  unfolding lookup insert
  set_status status id db = record db {
    documents = change_status status id (lookup id db.documents) db.documents;
  }

  module _ (fails : Failures) (new_id : ℕ → Text) (now : Text) where
    abbrev pub point_of : Document → ℕ → Chunk → List F → VectorPoint F
    point_of doc i c vector = record {
      id = new_id i;
      vector = vector;
      doc_id = doc.id;
      doc_name = doc.name;
      chunk_index = c.index;
    }

    abbrev pub with_point :
        VectorPoint F
        → Result StoreError (List (VectorPoint F)) × Database F
        → Result StoreError (List (VectorPoint F)) × Database F
    with_point p (ok ps, db) = (ok (p ∷ ps), db)
    with_point p (err e, db) = (err e, db)

    -- one turn of the loop over the chunks; the vectors are read by the same index
    abbrev pub save_next :
        Option Text
        → Document
        → ℕ
        → Chunk
        → List (List F)
        → Database F
        → (List (List F) → Database F → Result StoreError (List (VectorPoint F)) × Database F)
        → Result StoreError (List (VectorPoint F)) × Database F
    save_next (some e) doc i c vectors db continue = (err (chunk_not_saved i e), db)
    save_next none doc i c [] db continue =
        (err vector_missing, put_chunk (chunk_row new_id now doc i c) db)
    save_next none doc i c (v ∷ vs) db continue =
        with_point (point_of doc i c v) (continue vs (put_chunk (chunk_row new_id now doc i c) db))

    unfoldable pub save_chunks :
        Document
        → ℕ
        → List Chunk
        → List (List F)
        → Database F
        → Result StoreError (List (VectorPoint F)) × Database F
    unfolding insert
    save_chunks doc i [] vectors db = (ok [], db)
    save_chunks doc i (c ∷ cs) vectors db =
        save_next (fails.save_chunk i) doc i c vectors db (save_chunks doc (suc i) cs)

    -- the deferred deletion of the document
    abbrev pub clean_up : Option Text → Text → Database F → Database F
    clean_up (some e) id db = db
    clean_up none id db = delete_document fails.foreign_keys id db

    abbrev pub mark_pending :
        Option Text → Text → Text → Database F → Result StoreError IngestResult × Database F
    mark_pending (some m) e id db = (err (not_marked_pending e m), db)
    mark_pending none e id db = (err (vectors_not_stored e), set_status vector_pending id db)

    abbrev pub mark_ready :
        Option Text → Document → ℕ → Database F → Result StoreError IngestResult × Database F
    mark_ready (some e) doc count db = (err (not_marked_ready e), db)
    mark_ready none doc count db = (ok (stored_result doc count), set_status ready doc.id db)

    abbrev pub store_vectors :
        Option Text
        → Document
        → ℕ
        → List (VectorPoint F)
        → Database F
        → Result StoreError IngestResult × Database F
    store_vectors (some e) doc count points db = mark_pending fails.mark_pending e doc.id db
    store_vectors none doc count points db =
        mark_ready fails.mark_ready doc count (record db { points = put_points points db.points })

    -- what follows the loop over the chunks
    abbrev pub after_chunks :
        Document
        → ℕ
        → Result StoreError (List (VectorPoint F)) × Database F
        → Result StoreError IngestResult × Database F
    after_chunks doc count (err e, db) = (err e, clean_up fails.cleanup doc.id db)
    after_chunks doc count (ok points, db) = store_vectors fails.upsert doc count points db

    abbrev pub store_from :
        Option Text
        → Document
        → List Chunk
        → List (List F)
        → Text
        → Database F
        → Result StoreError IngestResult × Database F
    store_from (some e) doc chunks vectors sha db = (err (document_not_saved e), db)
    store_from none doc chunks vectors sha db = after_chunks doc (length chunks) (
        save_chunks doc zero chunks vectors
          (put_document (document_row now doc (length chunks) sha) db))

    unfoldable pub store_document :
        Document
        → List Chunk
        → List (List F)
        → Text
        → Database F
        → Result StoreError IngestResult × Database F
    unfolding save_chunks delete_document set_status
    store_document doc chunks vectors sha db =
        store_from fails.save_document doc chunks vectors sha db
