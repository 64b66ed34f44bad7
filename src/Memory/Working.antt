-- ===== src/Memory/Working.antt =====
-- memory/types/working.go: the items of a session, oldest first, up to a capacity.
pub mod Capacity
pub mod Search
use awesome_agent.Prelude.{
  ℕ, zero, suc, ◌+◌, ◌-◌, ◌*◌, ◌/◌, ℤ, pos, negsuc, Bool, true, false, not, ◌&&◌, Option, none,
  some, List, [], ◌∷◌, ◌++◌, map, Text, text_eq, contains, Dict, lookup, insert, codes, length,
  take, drop, keep, get_elem?, is_empty, leb, ltb, ◌==◌, if◌then◌else◌,
}
use awesome_agent.Memory.Item.{MemoryType, working, MemoryItem, SearchOptions, MemoryStatus}

-- `index` holds the contents that the BM25 index was last built of. The identifiers in id2Idx are
-- never read, and are left out.
pub record WorkingMemory (F : Type 0) : Type 0 where
  pub session_id : Text
  pub max_capacity : ℕ
  pub max_age_minutes : ℕ
  pub items : List (MemoryItem F)
  pub compressing : Bool
  pub index : List Text
  pub bm25_dirty : Bool

abbrev pub at_least_one : ℕ → ℤ → ℕ
at_least_one default (pos zero) = default
at_least_one default (pos (suc n)) = suc n
at_least_one default (negsuc n) = default

-- opts.Limit > 0 && len(res) >= opts.Limit
abbrev pub is_full : ℤ → ℕ → Bool
is_full (pos limit) count = ltb 0 limit && leb limit count
is_full (negsuc n) count = false

abbrev pub or_empty : Option (Dict Text) → Dict Text
or_empty none = []
or_empty (some m) = m

abbrev pub thrice : ℤ → ℤ
thrice (pos n) = pos (n * 3)
thrice (negsuc n) = negsuc (n * 3 + 2)

module _ {F : Type 0} where
  unfoldable pub new_working_memory : ℤ → ℤ → Text → WorkingMemory F
  new_working_memory max_capacity max_age_minutes session_id = record {
    session_id = session_id;
    max_capacity = at_least_one 1024 max_capacity;
    max_age_minutes = at_least_one 60 max_age_minutes;
    items = [];
    compressing = false;
    index = [];
    bm25_dirty = true;
  }

  -- the first item gives way when the memory is full
  abbrev pub make_room : ℕ → List (MemoryItem F) → List (MemoryItem F)
  make_room capacity items = if leb capacity (length items) then drop 1 items else items

  unfoldable pub add : MemoryItem F → WorkingMemory F → Text × WorkingMemory F
  add item w = (
    item.id,
    record w {
      items = make_room w.max_capacity w.items ++ record item { memory_type = working } ∷ [];
      bm25_dirty = true;
    },
  )

  -- the first item with the identifier
  unfoldable pub remove_first : Text → List (MemoryItem F) → Option (List (MemoryItem F))
  remove_first id [] = none
  remove_first id (item ∷ items) =
      let rest = remove_first id items in
      if text_eq item.id id
      then some items
      else elim rest [ none ↦ none | some kept ↦ some (item ∷ kept) ]

  unfoldable pub delete_item : Text → WorkingMemory F → WorkingMemory F
  unfolding remove_first
  delete_item id w = elim (remove_first id w.items) [
    | none ↦ w
    | some kept ↦ record w { items = kept; bm25_dirty = true }
  ]

  -- CreatedAt is before the present less the greatest age
  unfoldable pub is_expired : ℕ → WorkingMemory F → MemoryItem F → Bool
  is_expired now w item = elim item.created_at [
    | none ↦ false
    | some t ↦ ltb (t + w.max_age_minutes * 60000000000) now
  ]

  -- the loops of the searches: items that pass, up to the limit; `count` have been taken
  unfoldable pub collect : (MemoryItem F → Bool) → ℤ → ℕ → List (MemoryItem F) → List (MemoryItem F)
  collect skip limit count [] = []
  collect skip limit count (item ∷ items) =
      let passed = collect skip limit count items in
      let taken =
        item ∷ (if is_full limit (count + 1) then [] else collect skip limit (count + 1) items) in
      if skip item then passed else taken

  unfoldable pub newest_first : List (MemoryItem F) → List (MemoryItem F)
  newest_first [] = []
  newest_first (item ∷ items) = newest_first items ++ item ∷ []

  unfoldable pub no_query_search : ℕ → SearchOptions → WorkingMemory F → List (MemoryItem F)
  unfolding collect newest_first is_expired
  no_query_search now opts w = collect (is_expired now w) opts.limit 0 (newest_first w.items)

  unfoldable pub rebuild_index : WorkingMemory F → WorkingMemory F
  rebuild_index w =
      if w.bm25_dirty
      then record w { index = map (λ item. item.content) w.items; bm25_dirty = false }
      else w

  -- the result for a scored document; the stored item shares its metadata, unless they are nil
  abbrev pub with_score : Text → MemoryItem F → MemoryItem F
  with_score score item = record item {
    metadata = some (insert (codes "score") score (or_empty item.metadata));
  }

  abbrev pub stored_score : Text → MemoryItem F → MemoryItem F
  stored_score score item = elim item.metadata [ none ↦ item | some m ↦ with_score score item ]

  unfoldable pub update_at :
      (MemoryItem F → MemoryItem F) → ℕ → List (MemoryItem F) → List (MemoryItem F)
  update_at f doc [] = []
  update_at f zero (item ∷ items) = f item ∷ items
  update_at f (suc doc) (item ∷ items) = item ∷ update_at f doc items

  -- the loop of Search over the scored documents: the results, and the items
  unfoldable pub collect_scored :
      (MemoryItem F → Bool)
      → ℤ
      → ℕ
      → List (ℕ × Text)
      → List (MemoryItem F)
      → List (MemoryItem F) × List (MemoryItem F)
  unfolding update_at insert
  collect_scored skip limit count [] items = ([], items)
  collect_scored skip limit count ((doc, score) ∷ scored) items =
      let passed = collect_scored skip limit count scored items in
      elim (get_elem? items doc) [
        | none ↦ passed
        | some item ↦
            let items' = update_at (stored_score score) doc items in
            let (more, items'') = collect_scored skip limit (count + 1) scored items' in
            if skip item
            then passed
            else if is_full limit (count + 1)
            then (with_score score item ∷ [], items')
            else (with_score score item ∷ more, items'')
      ]

  -- `retrieve` is the BM25 scorer over the indexed documents, its scores as text
  unfoldable pub search :
      (List Text → Text → ℤ → List (ℕ × Text))
      → Text
      → SearchOptions
      → ℕ
      → WorkingMemory F
      → List (MemoryItem F) × WorkingMemory F
  unfolding rebuild_index no_query_search collect_scored is_expired
  search retrieve query opts now w =
      let indexed = rebuild_index w in
      let scored = retrieve indexed.index query (thrice opts.limit) in
      let (found, items) =
        collect_scored (is_expired now indexed) opts.limit 0 scored indexed.items in
      if is_empty query
      then (no_query_search now opts indexed, indexed)
      else (found, record indexed { items = items })

  abbrev pub created_of : Option (MemoryItem F) → Option ℕ
  created_of none = none
  created_of (some item) = item.created_at

  unfoldable pub status : WorkingMemory F → MemoryStatus
  status w = record {
    memory_type = working;
    count = length w.items;
    oldest_item = created_of (get_elem? w.items 0);
    newest_item = created_of (get_elem? w.items (length w.items - 1));
  }

  unfoldable pub is_near_capacity : WorkingMemory F → Bool
  is_near_capacity w = leb (w.max_capacity * 9 / 10) (length w.items) && not w.compressing

  unfoldable pub try_lock_compress : WorkingMemory F → Bool × WorkingMemory F
  try_lock_compress w =
      if w.compressing then (false, w) else (true, record w { compressing = true })

  unfoldable pub unlock_compress : WorkingMemory F → WorkingMemory F
  unlock_compress w = record w { compressing = false }

  unfoldable pub take_snapshot : ℕ → WorkingMemory F → List (MemoryItem F)
  take_snapshot n w = take n w.items

  unfoldable pub remove_items : List Text → WorkingMemory F → WorkingMemory F
  unfolding contains
  remove_items ids w = record w {
    items = keep (λ item. not (contains ids item.id)) w.items;
    bm25_dirty = true;
  }
