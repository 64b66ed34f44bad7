-- ===== src/Memory/Working/Capacity.antt =====
-- The working memory never holds more than its capacity.
use awesome_agent.Prelude.{
  ℕ, zero, suc, ◌+◌, ◌≤◌, ℤ, pos, not, List, [], ◌∷◌, Text, length, contains, length-append,
  length-drop, length-keep-le, arith,
}
use awesome_agent.Memory.Item.{MemoryItem}
use awesome_agent.Memory.Working.{
  WorkingMemory, new_working_memory, at_least_one, make_room, add, remove_items,
}

-- at least one item fits, and the items are within the capacity
abbrev pub Fits : {F : Type 0} → WorkingMemory F → Type 0
Fits w = (1 ≤ w.max_capacity) × (length w.items ≤ w.max_capacity)

at_least_one-pos : (default : ℕ) (n : ℤ) → 1 ≤ default → 1 ≤ at_least_one default n
at_least_one-pos default (pos zero) h = h
at_least_one-pos default (pos (suc n)) h = omega arith
at_least_one-pos default (ℤ.negsuc n) h = h

pub Fits-new_working_memory :
    (F : Type 0) (capacity age : ℤ) (session_id : Text)
    → Fits (new_working_memory {F = F} capacity age session_id)
unfolding new_working_memory
Fits-new_working_memory F capacity age session_id =
    (at_least_one-pos 1024 capacity (omega arith), omega arith)

module _ {F : Type 0} where
  length-make_room :
      (capacity : ℕ) (items : List (MemoryItem F))
      → 1 ≤ capacity
      → length items ≤ capacity
      → length (make_room capacity items) + 1 ≤ capacity
  length-make_room capacity items h k = ground (arith, length-drop 1 items)

  pub Fits-add : (item : MemoryItem F) (w : WorkingMemory F) → Fits w → Fits (add item w).1
  unfolding add
  Fits-add item w (h, k) = (
    h,
    omega (
      arith,
      length-append (make_room w.max_capacity w.items) (_ ∷ []),
      length-make_room w.max_capacity w.items h k,
    ),
  )

  pub Fits-remove_items :
      (ids : List Text) (w : WorkingMemory F) → Fits w → Fits (remove_items ids w)
  unfolding remove_items
  Fits-remove_items ids w (h, k) =
      (h, omega (arith, length-keep-le (λ item. not (contains ids item.id)) w.items))
