-- ===== src/Memory/Manager/Conservation.antt =====
-- No item of the working memory is lost: it is there, or it gave way to a newer one, or an item of the
-- episodic memory was made of it.
pub mod Run
use awesome_agent.Prelude.{
  ℕ, zero, suc, ◌+◌, ◌≤◌, ◌≡◌, refl, sym, ap, ◌∙◌, Bool, true, false, not, ◌||◌, Option, none, some,
  List, [], ◌∷◌, ◌++◌, map, Text, Result, ok, err, pos, if◌then◌else◌, arith, length, drop, keep,
  if_elim, All, All-mono, contains, text_eq, text_eq_iff, text_eq_refl, text_eq_sound, ◌⊎◌, inl,
  inr, leb, take,
}
use awesome_agent.Memory.Item.{MemoryItem}
use awesome_agent.Memory.Working.{
  WorkingMemory, new_working_memory, add, make_room, take_snapshot, try_lock_compress,
  unlock_compress, is_near_capacity, remove_items,
}
use awesome_agent.Memory.Compressor.{
  Floats, CompressOutput, CompressError, Reply, summarize, build_episodic_item, call_llm,
}
use awesome_agent.Memory.Manager.{
  Phase, started, locked, snapped, summarized, recorded, ended, Outside, State, new_manager,
  add_item, stamp, check_one, check_capacity, first_id, finish, after_summary, compress_step,
  step_at, step_goroutine, Reachable, start, adding, checking, acting,
}

contains-append :
    (xs ys : List Text) (a : Text) → contains (xs ++ ys) a ≡ contains xs a || contains ys a
unfolding contains
contains-append [] ys a = refl
contains-append (x ∷ xs) ys a = ground (arith, contains-append xs ys a)

module _ {F : Type 0} where
  abbrev pub ids : List (MemoryItem F) → List Text
  ids items = map (λ item. item.id) items

  abbrev pub sources_of : List (MemoryItem F) → List Text
  sources_of [] = []
  sources_of (item ∷ items) = item.source_ids ++ sources_of items

  -- the identifier is in the memory, in the sources of an episodic item, or was evicted
  abbrev pub Kept : List (MemoryItem F) → List (MemoryItem F) → List Text → Text → Type 0
  Kept items episodic evicted a =
      (contains (ids items) a || (contains (sources_of episodic) a || contains evicted a)) ≡ true

  -- the episodic items have the identifiers among their sources
  abbrev pub Sourced : List (MemoryItem F) → List (MemoryItem F) → Type 0
  Sourced items episodic =
      (a : Text) → contains (ids items) a ≡ true → contains (sources_of episodic) a ≡ true

  contains-keep :
      (rs : List Text) (items : List (MemoryItem F)) (a : Text)
      → contains (ids items) a ≡ true
      → (contains (ids (keep (λ item. not (contains rs item.id)) items)) a || contains rs a) ≡ true
  unfolding contains
  contains-keep rs [] a h = cc
  contains-keep rs (item ∷ items) a h =
      if_elim (λ kept. (contains (ids kept) a || contains rs a) ≡ true) (not (contains rs item.id))
        (item ∷ keep (λ i. not (contains rs i.id)) items) (keep (λ i. not (contains rs i.id)) items)
        (λ p. ground (arith, contains-keep rs items a))
        (λ p. ground (arith, contains-keep rs items a, contains_eq rs item.id a))
    where
      contains_eq :
          (rs : List Text) (x y : Text) → text_eq x y ≡ true → contains rs x ≡ contains rs y
      contains_eq rs x y e = ap (contains rs) (text_eq_sound x y e)

  pub Kept-remove_items :
      (items : List (MemoryItem F)) (memory : WorkingMemory F) (episodic : List (MemoryItem F))
      (evicted : List Text) (a : Text)
      → Sourced items episodic
      → Kept memory.items episodic evicted a
      → Kept (remove_items (ids items) memory).items episodic evicted a
  unfolding remove_items
  Kept-remove_items items memory episodic evicted a w h =
      ground (arith, contains-keep (ids items) memory.items a, w a)

  pub Kept-record :
      (items : List (MemoryItem F)) (item : MemoryItem F) (episodic : List (MemoryItem F))
      (evicted : List Text) (a : Text)
      → Kept items episodic evicted a
      → Kept items (item ∷ episodic) evicted a
  Kept-record items item episodic evicted a h =
      ground (arith, contains-append item.source_ids (sources_of episodic) a)

  pub Sourced-record :
      (items : List (MemoryItem F)) (item : MemoryItem F) (episodic : List (MemoryItem F))
      → Sourced items episodic
      → Sourced items (item ∷ episodic)
  Sourced-record items item episodic w a h =
      ground (arith, contains-append item.source_ids (sources_of episodic) a, w a)

  pub Sourced-self :
      (items : List (MemoryItem F)) (item : MemoryItem F) (episodic : List (MemoryItem F))
      → item.source_ids ≡ ids items
      → Sourced items (item ∷ episodic)
  Sourced-self items item episodic e a h =
      ground
        (arith, contains-append item.source_ids (sources_of episodic) a, ap (λ xs. contains xs a) e)

  contains-ids-append :
      (xs ys : List (MemoryItem F)) (a : Text)
      → contains (ids (xs ++ ys)) a ≡ contains (ids xs) a || contains (ids ys) a
  unfolding contains
  contains-ids-append [] ys a = refl
  contains-ids-append (x ∷ xs) ys a = ground (arith, contains-ids-append xs ys a)

  -- what makes room is evicted
  contains-first_id :
      (b : Bool) (items : List (MemoryItem F)) (a : Text)
      → (contains (ids (if b then drop 1 items else items)) a
          || contains (if b then first_id items else []) a)
        ≡ contains (ids items) a
  unfolding contains
  contains-first_id true [] a = refl
  contains-first_id true (x ∷ xs) a = ground arith
  contains-first_id false items a = ground arith

  pub Kept-add :
      (items : List (MemoryItem F)) (capacity : ℕ) (item : MemoryItem F)
      (episodic : List (MemoryItem F)) (evicted : List Text) (a : Text)
      → (text_eq item.id a ≡ true) ⊎ Kept items episodic evicted a
      → Kept
          (make_room capacity items ++ item ∷ [])
          episodic
          ((if leb capacity (length items) then first_id items else []) ++ evicted)
          a
  unfolding contains
  Kept-add items capacity item episodic evicted a h =
      let gone = (if leb capacity (length items) then first_id items else []) in
      ground (
        arith,
        contains-append gone evicted a,
        contains-ids-append (make_room capacity items) (item ∷ []) a,
        contains-first_id (leb capacity (length items)) items a,
      )
