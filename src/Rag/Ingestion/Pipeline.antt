-- ===== src/Rag/Ingestion/Pipeline.antt =====
-- pipeline.go: Ingest, which parses, chunks, embeds and stores a file unless its content is there.
pub mod Duplicates
use awesome_agent.Prelude.{
  ℕ, ℤ, Bool, true, false, Option, none, some, List, [], ◌∷◌, map, Text, Dict, codes, text_eq,
  is_empty, length, Result, ok, err, ◌==◌, if◌then◌else◌,
}
use awesome_agent.Rag.Chunker.Chunk.{Chunk}
use awesome_agent.Rag.Ingestion.Parsers.{Parsed, Parser, Registry, find_parser}
use awesome_agent.Rag.Ingestion.Embed.{Embedding, EmbedError, embed_chunks}
use awesome_agent.Rag.Ingestion.Store.{
  Document, DocumentRow, Database, Failures, IngestResult, StoreError, store_document,
}

pub data IngestError : Type 0 where
  unsupported_format : Text → IngestError
  parse_failed : Text → IngestError
  chunk_failed : Text → IngestError
  embed_failed : EmbedError → IngestError
  wrong_count : ℕ → ℕ → IngestError
  store_failed : StoreError → IngestError

-- the extension of a file name without its dot, its last part, strings.ToLower, the SHA-256 of a
-- text, the chunker with the options of the call, and the option on the size of a batch
pub record Surroundings (F W : Type 0) : Type 0 where
  pub ext_of : Text → Text
  pub base : Text → Text
  pub to_lower : Text → Text
  pub sha256_sum : Text → Text
  pub chunk : Text → Result Text (List Chunk)
  pub embedding : Embedding F W
  pub batch_size : Option ℤ

-- the first row with this sum
unfoldable pub row_with : Text → Dict DocumentRow → Option DocumentRow
unfolding text_eq
row_with sha [] = none
row_with sha ((key, row) ∷ rows) =
    let later = row_with sha rows in if text_eq row.sha256 sha then some row else later

abbrev pub extension_or_txt : Text → Text
extension_or_txt [] = codes "txt"
extension_or_txt (c ∷ s) = c ∷ s

module _ {F W : Type 0} (around : Surroundings F W) (fails : Failures) (doc_id : Text)
    (new_id : ℕ → Text) (now : Text) where
  -- no identifier where the query fails or finds nothing
  abbrev pub found_id : Option Text → Option DocumentRow → Text
  found_id (some e) o = []
  found_id none none = []
  found_id none (some row) = row.id

  unfoldable pub find_duplicate : Text → Database F → Text
  unfolding row_with
  find_duplicate sha db = found_id fails.find_document (row_with sha db.documents)

  abbrev pub wrapped :
      Result StoreError IngestResult × Database F
      → W
      → Result IngestError IngestResult × Database F × W
  wrapped (ok r, db) w = (ok r, db, w)
  wrapped (err e, db) w = (err (store_failed e), db, w)

  abbrev pub with_embedded :
      Document
      → Text
      → List Chunk
      → Database F
      → Result EmbedError (List (List F)) × W
      → Result IngestError IngestResult × Database F × W
  with_embedded doc sha chunks db (err e, w) = (err (embed_failed e), db, w)
  with_embedded doc sha chunks db (ok vectors, w) =
      if length vectors == length chunks
      then wrapped (store_document fails new_id now doc chunks vectors sha db) w
      else (err (wrong_count (length vectors) (length chunks)), db, w)

  abbrev pub with_chunks :
      Document
      → Text
      → Result Text (List Chunk)
      → Database F
      → W
      → Result IngestError IngestResult × Database F × W
  with_chunks doc sha (err e) db w = (err (chunk_failed e), db, w)
  with_chunks doc sha (ok chunks) db w =
      with_embedded doc sha chunks db
        (embed_chunks around.embedding around.batch_size (map (λ (c : Chunk). c.content) chunks) w)

  abbrev pub duplicate_result : Text → Text → Text → IngestResult
  duplicate_result id name format = record {
    doc_id = id;
    doc_name = name;
    format = format;
    chunk_count = 0;
    duplicate = true;
  }

  abbrev pub unless_duplicate :
      Text
      → Document
      → Text
      → Text
      → Database F
      → W
      → Result IngestError IngestResult × Database F × W
  unless_duplicate format doc sha existing db w =
      if is_empty existing
      then with_chunks doc sha (around.chunk doc.content) db w
      else (ok (duplicate_result existing doc.name format), db, w)

  abbrev pub document_of : Text → Parsed → Document
  document_of filename parsed = record {
    id = doc_id;
    name = around.base filename;
    format = parsed.format;
    size = parsed.size;
    content = parsed.content;
  }

  abbrev pub with_parsed :
      Text
      → Text
      → Result Text Parsed
      → Database F
      → W
      → Result IngestError IngestResult × Database F × W
  with_parsed filename format (err e) db w = (err (parse_failed e), db, w)
  with_parsed filename format (ok parsed) db w =
      let sha = around.sha256_sum parsed.content in
      unless_duplicate format (document_of filename parsed) sha (find_duplicate sha db) db w

  abbrev pub with_parser :
      {R : Type 0}
      → Text
      → R
      → Text
      → Option (Parser R × Text)
      → Database F
      → W
      → Result IngestError IngestResult × Database F × W
  with_parser filename file ext none db w = (err (unsupported_format ext), db, w)
  with_parser filename file ext (some (p, format)) db w =
      with_parsed filename format (p.parse file) db w

  unfoldable pub ingest :
      {R : Type 0}
      → Registry R
      → Text
      → R
      → Database F
      → W
      → Result IngestError IngestResult × Database F × W
  unfolding find_parser embed_chunks store_document find_duplicate
  ingest parsers filename file db w =
      let ext = extension_or_txt (around.to_lower (around.ext_of filename)) in
      with_parser filename file ext (find_parser around.to_lower ext parsers) db w
