-- ===== src/Memory/Tests.antt =====
-- The theorems on the memory at concrete runs.
use awesome_agent.Prelude.{
  ℕ, ◌≤◌, ◌≡◌, refl, ℤ, pos, Bool, true, false, not, Option, none, some, List, [], ◌∷◌, map, Text,
  codes, Result, ok, err, length, keep, All, ◌==◌, leb, ltb, max, ◌*◌, ◌/◌,
}
use awesome_agent.Memory.Item.{MemoryItem, untyped}
use awesome_agent.Memory.Working.{
  WorkingMemory, new_working_memory, add, delete_item, rebuild_index, collect_scored,
  no_query_search,
}
use awesome_agent.Memory.Working.Search.{no_query_search_lem, take_limit, is_recent, backwards}
use awesome_agent.Memory.Compressor.{Floats, CompressOutput}
use awesome_agent.Memory.Manager.{
  Outside, State, new_manager, add_item, check_capacity, step_goroutine, Reachable, start, adding,
  checking, acting,
}
use awesome_agent.Memory.Manager.Invariant.{holders, bit, one_compression}
use awesome_agent.Memory.Manager.Conservation.{Kept, ids, sources_of}
use awesome_agent.Memory.Manager.Conservation.Run.{nothing_lost}

-- scores in tenths
abbrev tenths : Floats ℕ
tenths = record {
  zero = 0;
  one = 10;
  nine_tenths = 9;
  at_most = leb;
  above = λ a b. ltb b a;
  times = λ a b. a * b / 10;
}

abbrev unmarshal : Text → Option (CompressOutput ℕ)
unmarshal [] = none
unmarshal (c ∷ s) =
    some (record { summary = c ∷ s; content = c ∷ s; importance = 0; event_type = codes "result" })

abbrev item_of : Text → MemoryItem ℕ
item_of text = record {
  id = text;
  session_id = [];
  memory_type = untyped;
  content = text;
  created_at = none;
  importance = 5;
  metadata = none;
  source_ids = [];
  compressed_from = untyped;
  status = [];
}

abbrev out : Outside
out = record {
  reply = ok (record {
    finish_reason = codes "tool_calls";
    tool_calls = (codes "compress_memory", codes "{}") ∷ [];
  });
  id = codes "e";
  now = 7;
  accepts = true;
  panics = false;
}

abbrev session : Text
session = codes "s"

-- a memory for two items, with one in it and a compression of it
abbrev one_added : State ℕ
one_added =
    check_capacity
      (add_item (codes "1") 5 (item_of (codes "a")) (new_manager (pos 2) (pos 1) session))

abbrev act : State ℕ → State ℕ
act s = step_goroutine tenths unmarshal out 0 s

abbrev compressed : State ℕ
compressed = act (act (act (act (act one_added))))

compressed-Reachable : Reachable tenths unmarshal (pos 2) (pos 1) session compressed
compressed-Reachable = acting out 0 (
    acting out 0 (
      acting out 0 (
        acting out 0 (acting out 0 (checking (adding (codes "1") 5 (item_of (codes "a")) start))))))

compressed_run :
    (ids compressed.memory.items ≡ []) × (sources_of compressed.episodic ≡ codes "1" ∷ [])
unfolding new_manager add_item check_capacity step_goroutine awesome_agent.Prelude.text_eq
compressed_run = (refl, refl)

one_compression_example :
    (length compressed.memory.items ≤ compressed.memory.max_capacity)
    × (holders compressed.goroutines ≡ bit compressed.memory.compressing)
one_compression_example =
    one_compression tenths unmarshal (pos 2) (pos 1) session compressed-Reachable

nothing_lost_example :
    All (Kept compressed.memory.items compressed.episodic compressed.evicted) compressed.added
nothing_lost_example = nothing_lost tenths unmarshal (pos 2) (pos 1) session compressed-Reachable

abbrev two_items : WorkingMemory ℕ
two_items =
    (add (item_of (codes "b"))
      (add (item_of (codes "a")) (new_working_memory (pos 5) (pos 1) session)).1).1

no_query_search_lem_example :
    no_query_search 9 (record { limit = pos 1 }) two_items
    ≡ take_limit (pos 1) (
        keep
          (λ item. is_recent 9 (two_items.max_age_minutes * 60000000000) item.created_at)
          (backwards two_items.items []))
no_query_search_lem_example = no_query_search_lem 9 (record { limit = pos 1 }) two_items

-- Search takes the lock twice. Between the two, the item "a" is deleted: the scorer found the document
-- "a" at 0, and the result for it is "b".
stale_result :
    map
      (λ item. item.content)
      (collect_scored
        (λ item. false)
        (pos 1)
        0
        ((0, codes "1.0") ∷ [])
        (delete_item (codes "a") (rebuild_index two_items)).items).0
    ≡ codes "b" ∷ []
unfolding rebuild_index delete_item collect_scored add new_working_memory
    awesome_agent.Prelude.text_eq
stale_result = refl
