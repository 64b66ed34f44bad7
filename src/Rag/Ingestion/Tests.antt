-- ===== src/Rag/Ingestion/Tests.antt =====
-- The theorems on the ingestion at concrete stores and services, and runs of the code.
use awesome_agent.Prelude.{
  ℕ, suc, pos, ◌≤◌, ◌+◌, ◌*◌, ◌≡◌, refl, none, some, List, [], ◌∷◌, map, Text, codes, text_eq,
  contains, text_eq_sound, lookup, true, Result, ok, err, if_elim, arith, ◌==◌, if◌then◌else◌,
}
use awesome_agent.Rag.Chunker.Chunk.{Chunk}
use awesome_agent.Rag.Ingestion.Parsers.{find_parser, register_parser, Parser, new_parser_registry}
use awesome_agent.Rag.Ingestion.Parsers.Laws.{parser_of, first_of, find_parser-register_parser}
use awesome_agent.Rag.Ingestion.Embed.{Embedding, out_of_fuel, embed_chunks}
use awesome_agent.Rag.Ingestion.Embed.Batches.{Honest, Embedded, Embedded-embed_chunks}
use awesome_agent.Rag.Ingestion.Embed.Attempts.{embed_chunks_calls}
use awesome_agent.Rag.Ingestion.Store.{
  Document, Database, Failures, IngestResult, store_document, vectors_not_stored,
}
use awesome_agent.Rag.Ingestion.Store.Loop.{Distinct, Unused}
use awesome_agent.Rag.Ingestion.Store.Atomic.{Stored, Stored-store_document}
use awesome_agent.Rag.Ingestion.Pipeline.{
  Surroundings, IngestError, store_failed, duplicate_result, ingest,
}
use awesome_agent.Rag.Ingestion.Pipeline.Duplicates.{Repeats, Repeats-ingest}

abbrev F : Type 0
F = Unit {0}

abbrev piece : Text → Chunk
piece s = record { index = 0; content = s; token_est = 1; start_pos = pos 0; end_pos = 1 }

abbrev new_id : ℕ → Text
new_id i = i ∷ []

new_id-Distinct : Distinct new_id
unfolding text_eq
new_id-Distinct i j h = ground (arith, text_eq_sound (new_id i) (new_id j) h)

abbrev no_rows : Database F
no_rows = record { documents = []; chunks = []; points = [] }

new_id-Unused : Unused new_id 0 no_rows.chunks
unfolding lookup
new_id-Unused j h = refl

abbrev all_works : Failures
all_works = record {
  find_document = none;
  save_document = none;
  save_chunk = λ i. none;
  cleanup = none;
  foreign_keys = true;
  upsert = none;
  mark_pending = none;
  mark_ready = none;
}

-- the second chunk is not written
abbrev chunk_fails : Failures
chunk_fails = record all_works { save_chunk = λ i. if i == 1 then some (codes "full") else none }

abbrev vectors_fail : Failures
vectors_fail = record all_works { upsert = some (codes "down") }

abbrev note : Document
note = record {
  id = codes "d";
  name = codes "n.txt";
  format = codes "txt";
  size = 2;
  content = codes "ab";
}

Stored-store_document_example :
    Stored chunk_fails new_id
      (codes "now")
      note
      (codes "sum")
      no_rows
      (piece (codes "a") ∷ piece (codes "b") ∷ [])
      ((tt ∷ []) ∷ (tt ∷ []) ∷ [])
      (store_document chunk_fails new_id
        (codes "now")
        note
        (piece (codes "a") ∷ piece (codes "b") ∷ [])
        ((tt ∷ []) ∷ (tt ∷ []) ∷ [])
        (codes "sum")
        no_rows)
unfolding lookup
Stored-store_document_example =
    Stored-store_document chunk_fails new_id (codes "now") note (codes "sum") no_rows
      (piece (codes "a") ∷ piece (codes "b") ∷ []) ((tt ∷ []) ∷ (tt ∷ []) ∷ []) refl tt
      new_id-Distinct new_id-Unused

-- a service that fails in one world
abbrev service : Embedding F ℕ
service = record {
  embed_batch = λ texts w.
      (if w == 1 then err (codes "status 503") else ok (map (λ (t : Text). tt ∷ []) texts), suc w);
  wait = λ attempt w. (none, w);
}

service-Honest :
    (texts : List Text) (w : ℕ)
    → Honest service (λ t. tt ∷ []) texts (service.embed_batch texts w).0
service-Honest texts w =
    if_elim (Honest service (λ t. tt ∷ []) texts) (w == 1) (err (codes "status 503"))
      (ok (map (λ (t : Text). tt ∷ []) texts)) (λ c. tt) (λ c. refl)

abbrev texts : List Text
texts = codes "a" ∷ codes "b" ∷ codes "c" ∷ []

Embedded-embed_chunks_example :
    Embedded service (λ t. tt ∷ []) texts (embed_chunks service (some (pos 2)) texts 0).0
Embedded-embed_chunks_example =
    Embedded-embed_chunks service (λ t. tt ∷ []) service-Honest (some (pos 2)) 1 texts 0 refl

embed_chunks_calls_example : (embed_chunks service (some (pos 2)) texts 0).1 ≤ 0 + 3 * 2
embed_chunks_calls_example =
    embed_chunks_calls service (λ w. w) (λ texts w. omega arith) (λ attempt w. omega arith)
      (some (pos 2)) 2 1 texts 0 refl (omega arith)

-- With a size of 0 the loop does not end.
zero_batch : (embed_chunks service (some (pos 0)) texts 5).0 ≡ err out_of_fuel
unfolding embed_chunks
zero_batch = refl

abbrev plain : Parser Text
plain = record {
  supported_formats = codes "txt" ∷ [];
  parse = λ file. ok (record { format = codes "txt"; size = 2; content = file });
}

abbrev around : Surroundings F ℕ
around = record {
  ext_of = λ name. codes "txt";
  base = λ name. name;
  to_lower = λ s. s;
  sha256_sum = λ s. s;
  chunk = λ s. ok (piece s ∷ []);
  embedding = service;
  batch_size = none;
}

Repeats-ingest_example :
    Repeats around all_works
      (codes "d")
      new_id
      (codes "now")
      (ingest around all_works
        (codes "d")
        new_id
        (codes "now")
        (new_parser_registry plain)
        (codes "n.txt")
        (codes "ab")
        no_rows
        0)
      (ingest around vectors_fail
        (codes "e")
        new_id
        (codes "then")
        (new_parser_registry plain)
        (codes "n.txt")
        (codes "ab")
        (ingest around all_works
          (codes "d")
          new_id
          (codes "now")
          (new_parser_registry plain)
          (codes "n.txt")
          (codes "ab")
          no_rows
          0).1
        3)
unfolding lookup
Repeats-ingest_example =
    Repeats-ingest around all_works (codes "d") new_id (codes "now") vectors_fail (codes "e") new_id
      (codes "then") refl no_rows refl tt new_id-Distinct new_id-Unused refl refl tt
      (new_parser_registry plain) (codes "n.txt") (codes "ab") 0 3

abbrev first_try : Result IngestError IngestResult × Database F × ℕ
first_try =
    ingest around vectors_fail (codes "d") new_id (codes "now") (new_parser_registry plain)
      (codes "n.txt") (codes "ab") no_rows 0

-- A file whose vectors could not be stored is taken for a duplicate when it comes again.
vectors_lost : first_try.0 ≡ err (store_failed (vectors_not_stored (codes "down")))
unfolding ingest new_parser_registry
vectors_lost = refl

never_repaired :
    (ingest around all_works
      (codes "e")
      new_id
      (codes "then")
      (new_parser_registry plain)
      (codes "n.txt")
      (codes "ab")
      first_try.1
      3).0
    ≡ ok (
        duplicate_result around all_works
          (codes "e")
          new_id
          (codes "then")
          (codes "d")
          (codes "n.txt")
          (codes "txt"))
unfolding ingest new_parser_registry
never_repaired = refl

find_parser-register_parser_example :
    parser_of
      (find_parser (λ s. s) (codes "txt") (register_parser plain (new_parser_registry plain)))
    ≡ first_of
        (parser_of (find_parser (λ s. s) (codes "txt") (new_parser_registry plain)))
        (contains (codes "txt" ∷ []) (codes "txt"))
        plain
find_parser-register_parser_example =
    find_parser-register_parser (λ s. s) (codes "txt") plain (new_parser_registry plain)
