-- ===== src/Rag/Ingestion/Pipeline/Duplicates.antt =====
-- A file that was ingested is found as a duplicate when it comes again.
use awesome_agent.Prelude.{
  ℕ, zero, ◌≡◌, refl, sym, ap, subst, ◌∙◌, false, Option, none, some, List, [], ◌∷◌, ◌++◌, map,
  Text, Dict, text_eq_refl, lookup, is_empty, length, Result, ok, err, All, arith, if_elim,
  if_false, ◌==◌,
}
use awesome_agent.Rag.Chunker.Chunk.{Chunk}
use awesome_agent.Rag.Ingestion.Parsers.{Parsed, Parser, Registry, find_parser}
use awesome_agent.Rag.Ingestion.Embed.{EmbedError, embed_chunks}
use awesome_agent.Rag.Ingestion.Store.{
  Document, DocumentRow, ready, Database, Failures, IngestResult, StoreError, document_row,
  store_document,
}
use awesome_agent.Rag.Ingestion.Store.Rows.{Other}
use awesome_agent.Rag.Ingestion.Store.Loop.{Distinct, Unused}
use awesome_agent.Rag.Ingestion.Store.Atomic.{Stored, Stored-store_document}
use awesome_agent.Rag.Ingestion.Pipeline.{
  Surroundings, IngestError, wrong_count, row_with, extension_or_txt, found_id, find_duplicate,
  wrapped, with_embedded, with_chunks, duplicate_result, unless_duplicate, document_of, with_parsed,
  with_parser, ingest,
}

abbrev pub Named : Text × DocumentRow → Type 0
Named (key, row) = is_empty row.id ≡ false

row_with-last :
    (sha key : Text) (row : DocumentRow) (rows : Dict DocumentRow)
    → row_with sha rows ≡ none
    → row.sha256 ≡ sha
    → row_with sha (rows ++ (key, row) ∷ []) ≡ some row
unfolding row_with
row_with-last sha key row [] h e = ground (arith, text_eq_refl sha)
row_with-last sha key row ((k, r) ∷ rows) h e = ground (arith, row_with-last sha key row rows)

Named-row_with :
    (sha : Text) (row : DocumentRow) (rows : Dict DocumentRow)
    → All Named rows
    → row_with sha rows ≡ some row
    → is_empty row.id ≡ false
unfolding row_with
Named-row_with sha row [] h e = cc
Named-row_with sha row ((k, r) ∷ rows) (named, h) e = ground (arith, Named-row_with sha row rows h)

module _ {F W : Type 0} (around : Surroundings F W) (fails : Failures) (doc_id : Text)
    (new_id : ℕ → Text) (now : Text) where
  -- after a success, the first row with the sum is that of the result
  abbrev Found : Text → Text → Result IngestError IngestResult × Database F × W → Type 0
  Found sha name (err e, db, w) = Unit
  Found sha name (ok r, db, w) =
      (row : DocumentRow) × (row_with sha db.documents ≡ some row)
      × (row.id ≡ r.doc_id)
      × (r.doc_name ≡ name)
      × (is_empty row.id ≡ false)

  module _ (db : Database F) (fresh : lookup doc_id db.documents ≡ none)
      (other : All (Other doc_id) db.chunks) (distinct : Distinct new_id)
      (unused : Unused new_id zero db.chunks) (named : is_empty doc_id ≡ false) where
    Found-wrapped :
        (doc : Document) (sha : Text) (chunks : List Chunk) (vectors : List (List F))
        (r : Result StoreError IngestResult × Database F) (w : W)
        → doc.id ≡ doc_id
        → row_with sha db.documents ≡ none
        → Stored fails new_id now doc sha db chunks vectors r
        → Found sha doc.name (wrapped around fails doc_id new_id now r w)
    Found-wrapped doc sha chunks vectors (err e, db') w same absent h = tt
    Found-wrapped doc sha chunks vectors (ok r, db') w same absent (result, left) =
        let row : DocumentRow = record (document_row now doc (length chunks) sha) {
          status = ready;
        } in
        let found : row_with sha (db.documents ++ (doc.id, row) ∷ []) ≡ some row =
          row_with-last sha doc.id row db.documents absent refl in
        (
          row,
          ap (λ (d : Database F). row_with sha d.documents) left ∙ found,
          sym (ap (λ (x : IngestResult). x.doc_id) result),
          ap (λ (x : IngestResult). x.doc_name) result,
          ap is_empty same ∙ named,
        )

    Found-with_embedded :
        (filename : Text) (parsed : Parsed) (chunks : List Chunk)
        (r : Result EmbedError (List (List F))) (w : W)
        → let sha = around.sha256_sum parsed.content in
          let doc = document_of around fails doc_id new_id now filename parsed in
          row_with sha db.documents ≡ none
          → Found sha doc.name
              (with_embedded around fails doc_id new_id now doc sha chunks db (r, w))
    Found-with_embedded filename parsed chunks (err e) w absent = tt
    Found-with_embedded filename parsed chunks (ok vectors) w absent =
        let sha = around.sha256_sum parsed.content in
        let doc = document_of around fails doc_id new_id now filename parsed in
        let stored = store_document fails new_id now doc chunks vectors sha db in
        if_elim (Found sha doc.name) (length vectors == length chunks)
          (wrapped around fails doc_id new_id now stored w)
          (err (wrong_count (length vectors) (length chunks)), db, w)
          (λ c. Found-wrapped doc sha chunks vectors stored w refl absent (
            Stored-store_document fails new_id now doc sha db chunks vectors fresh other distinct
              unused))
          (λ c. tt)

    Found-with_chunks :
        (filename : Text) (parsed : Parsed) (r : Result Text (List Chunk)) (w : W)
        → let sha = around.sha256_sum parsed.content in
          let doc = document_of around fails doc_id new_id now filename parsed in
          row_with sha db.documents ≡ none
          → Found sha doc.name (with_chunks around fails doc_id new_id now doc sha r db w)
    Found-with_chunks filename parsed (err e) w absent = tt
    Found-with_chunks filename parsed (ok chunks) w absent =
        let (r, v) =
          embed_chunks around.embedding around.batch_size (map (λ (c : Chunk). c.content) chunks)
            w in
        Found-with_embedded filename parsed chunks r v absent

    -- by the row that the query finds
    Found-unless_duplicate :
        (o : Option DocumentRow) (filename format : Text) (parsed : Parsed) (w : W)
        → let sha = around.sha256_sum parsed.content in
          let doc = document_of around fails doc_id new_id now filename parsed in
          row_with sha db.documents ≡ o
          → All Named db.documents
          → Found sha doc.name (
              unless_duplicate around fails doc_id new_id now format doc sha
                (found_id around fails doc_id new_id now none o)
                db
                w)
    Found-unless_duplicate none filename format parsed w absent names =
        Found-with_chunks filename parsed (around.chunk parsed.content) w absent
    Found-unless_duplicate (some row) filename format parsed w present names =
        let sha = around.sha256_sum parsed.content in
        let doc = document_of around fails doc_id new_id now filename parsed in
        let id_named = Named-row_with sha row db.documents names present in
        subst (Found sha doc.name) (sym (if_false (is_empty row.id) _ _ id_named))
          (row, present, refl, refl, id_named)

    module _ (finds : fails.find_document ≡ none) (names : All Named db.documents) where
      Found-with_parsed :
          (filename format : Text) (parsed : Parsed) (w : W)
          → Found
              (around.sha256_sum parsed.content)
              (around.base filename)
              (with_parsed around fails doc_id new_id now filename format (ok parsed) db w)
      unfolding find_duplicate
      Found-with_parsed filename format parsed w =
          let sha = around.sha256_sum parsed.content in
          let doc = document_of around fails doc_id new_id now filename parsed in
          let o = row_with sha db.documents in
          subst
            (λ (q : Option Text). Found sha doc.name (
              unless_duplicate around fails doc_id new_id now format doc sha
                (found_id around fails doc_id new_id now q o) db w))
            (sym finds) (Found-unless_duplicate o filename format parsed w refl names)

  -- after a success, the same call finds the document, and leaves the database
  abbrev pub Repeats :
      Result IngestError IngestResult × Database F × W
      → Result IngestError IngestResult × Database F × W
      → Type 0
  Repeats (err e, db, w) again = Unit
  Repeats (ok r, db, w) again =
      (format : Text) × (again.0
        ≡ ok (duplicate_result around fails doc_id new_id now r.doc_id r.doc_name format))
      × (again.1 ≡ db)

  module _ (later : Failures) (later_id : Text) (later_ids : ℕ → Text) (later_now : Text)
      (later_finds : later.find_document ≡ none) where
    Repeats-Found :
        (filename format : Text) (parsed : Parsed)
        (out : Result IngestError IngestResult × Database F × W) (v : W)
        → Found (around.sha256_sum parsed.content) (around.base filename) out
        → Repeats out (
            with_parsed around later later_id later_ids later_now filename format
              (ok parsed)
              out.1
              v)
    unfolding find_duplicate
    Repeats-Found filename format parsed (err e, db, w) v h = tt
    Repeats-Found filename format parsed (ok r, db, w) v (row, found, id, name, named) =
        let out =
          with_parsed around later later_id later_ids later_now filename format (ok parsed) db v in
        let existing : find_duplicate around later later_id later_ids later_now
              (around.sha256_sum parsed.content) db
            ≡ row.id =
          rw (later_finds, found) in
        let doc = document_of around later later_id later_ids later_now filename parsed in
        let sha = around.sha256_sum parsed.content in
        let same : out
            ≡ (ok (duplicate_result around fails doc_id new_id now row.id doc.name format), db, v) =
          ap
            (λ (x : Text).
              unless_duplicate around later later_id later_ids later_now format doc sha x db v)
            existing
          ∙ if_false (is_empty row.id) _ _ named in
        (
          format,
          ap (λ (x : Result IngestError IngestResult × Database F × W). x.0) same
              ∙ ap
                  (λ (x : Text).
                    ok (duplicate_result around fails doc_id new_id now x doc.name format))
                  id
              ∙ ap
                  (λ (x : Text).
                    ok (duplicate_result around fails doc_id new_id now r.doc_id x format))
                  (sym name),
          ap (λ (x : Result IngestError IngestResult × Database F × W). x.1) same,
        )

    module _ (db : Database F) (fresh : lookup doc_id db.documents ≡ none)
        (other : All (Other doc_id) db.chunks) (distinct : Distinct new_id)
        (unused : Unused new_id zero db.chunks) (named : is_empty doc_id ≡ false)
        (finds : fails.find_document ≡ none) (names : All Named db.documents) where
      Repeats-with_parsed :
          (filename format : Text) (r : Result Text Parsed) (w v : W)
          → let first = with_parsed around fails doc_id new_id now filename format r db w in
            Repeats first
              (with_parsed around later later_id later_ids later_now filename format r first.1 v)
      Repeats-with_parsed filename format (err e) w v = tt
      Repeats-with_parsed filename format (ok parsed) w v =
          Repeats-Found filename format parsed
            (with_parsed around fails doc_id new_id now filename format (ok parsed) db w) v
            (Found-with_parsed db fresh other distinct unused named finds names filename format
              parsed w)

      Repeats-with_parser :
          {R : Type 0} (filename : Text) (file : R) (ext : Text) (o : Option (Parser R × Text))
          (w v : W)
          → let first = with_parser around fails doc_id new_id now filename file ext o db w in
            Repeats first
              (with_parser around later later_id later_ids later_now filename file ext o first.1 v)
      Repeats-with_parser filename file ext none w v = tt
      Repeats-with_parser filename file ext (some (p, format)) w v =
          Repeats-with_parsed filename format (p.parse file) w v

      -- Let the identifiers of the document and of its chunks be new and distinct, no identifier of a
      -- document be empty, and the query for the sum not fail. If
      -- the ingestion of a file succeeds, whatever else may fail, then at any later time a second
      -- ingestion of that file reports a duplicate with the identifier and the name of the first
      -- result, and leaves the database as it is.
      pub Repeats-ingest :
          {R : Type 0} (parsers : Registry R) (filename : Text) (file : R) (w v : W)
          → let first = ingest around fails doc_id new_id now parsers filename file db w in
            Repeats first
              (ingest around later later_id later_ids later_now parsers filename file first.1 v)
      unfolding ingest
      Repeats-ingest parsers filename file =
          let ext = extension_or_txt (around.to_lower (around.ext_of filename)) in
          Repeats-with_parser filename file ext (find_parser around.to_lower ext parsers)
