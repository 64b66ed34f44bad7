-- ===== src/Memory/Manager.antt =====
-- memory/manager.go: Add, and the goroutines of compressWorking that it starts, action by action.
-- An action takes the lock of the memory once, or calls the model or the episodic memory.
pub mod Invariant
pub mod Conservation
use awesome_agent.Prelude.{
  ℕ, zero, suc, ◌+◌, Bool, true, false, ◌&&◌, Option, none, some, List, [], ◌∷◌, ◌++◌, map, Text,
  codes, ℤ, Result, ok, err, take, length, leb, if◌then◌else◌,
}
use awesome_agent.Memory.Item.{MemoryItem}
use awesome_agent.Memory.Working.{
  WorkingMemory, new_working_memory, add, is_near_capacity, try_lock_compress, unlock_compress,
  take_snapshot, remove_items,
}
use awesome_agent.Memory.Compressor.{Floats, CompressOutput, Reply, CompressError, summarize}

-- where a goroutine stands; from `locked` on it holds the lock of the compression
pub data Phase (F : Type 0) : Type 0 where
  started : Phase F
  locked : Phase F
  snapped : List (MemoryItem F) → Phase F
  summarized : List (MemoryItem F) → MemoryItem F → Phase F
  recorded : List (MemoryItem F) → Phase F
  ended : Phase F

-- what an action meets outside: the model's reply, the identifier and time of the clock, whether the
-- episodic memory takes the item, and whether a call panics
pub record Outside : Type 0 where
  pub reply : Result Text Reply
  pub id : Text
  pub now : ℕ
  pub accepts : Bool
  pub panics : Bool

-- `checking` counts the calls of Add between wm.Add and IsNearCapacity. The last two fields are the
-- history: the identifiers of the items that were added, and of those that gave way to others.
pub record State (F : Type 0) : Type 0 where
  pub session_id : Text
  pub memory : WorkingMemory F
  pub episodic : List (MemoryItem F)
  pub checking : ℕ
  pub goroutines : List (Phase F)
  pub added : List Text
  pub evicted : List Text

abbrev pub first_id : {F : Type 0} → List (MemoryItem F) → List Text
first_id [] = []
first_id (item ∷ items) = item.id ∷ []

module _ {F : Type 0} where
  -- NewManager, with Working and Episodic enabled; it passes the capacity 1024 and the age 360
  unfoldable pub new_manager : ℤ → ℤ → Text → State F
  unfolding new_working_memory
  new_manager capacity age session_id = record {
    session_id = session_id;
    memory = new_working_memory capacity age session_id;
    episodic = [];
    checking = 0;
    goroutines = [];
    added = [];
    evicted = [];
  }

  abbrev pub stamp : Text → Text → ℕ → MemoryItem F → MemoryItem F
  stamp session_id id now item = record item {
    session_id = session_id;
    id = id;
    created_at = some now;
  }

  -- Add up to the end of wm.Add
  unfoldable pub add_item : Text → ℕ → MemoryItem F → State F → State F
  unfolding add
  add_item id now item s =
      let (id', memory) = add (stamp s.session_id id now item) s.memory in
      record s {
        memory = memory;
        checking = s.checking + 1;
        added = id' ∷ s.added;
        evicted =
            (if leb s.memory.max_capacity (length s.memory.items)
              then first_id s.memory.items
              else [])
            ++ s.evicted;
      }

  -- the rest of one of the calls of Add that have come so far; Working and Episodic are enabled
  abbrev pub check_one : ℕ → State F → State F
  check_one zero s = s
  check_one (suc n) s = record s {
    checking = n;
    goroutines = if is_near_capacity s.memory then started ∷ s.goroutines else s.goroutines;
  }

  unfoldable pub check_capacity : State F → State F
  unfolding is_near_capacity
  check_capacity s = check_one s.checking s

  abbrev pub finish :
      WorkingMemory F → List (MemoryItem F) → Phase F × WorkingMemory F × List (MemoryItem F)
  finish memory episodic = (ended, unlock_compress memory, episodic)

module _ {F : Type 0} (floats : Floats F) (unmarshal : Text → Option (CompressOutput F)) where
  abbrev pub after_summary :
      List (MemoryItem F)
      → Result CompressError (MemoryItem F)
      → WorkingMemory F
      → List (MemoryItem F)
      → Phase F × WorkingMemory F × List (MemoryItem F)
  after_summary items (err e) memory episodic = finish memory episodic
  after_summary items (ok item) memory episodic = (summarized items item, memory, episodic)

  -- the next action of a goroutine; its deferred calls release the lock however it ends
  unfoldable pub compress_step :
      Text
      → Outside
      → Phase F
      → WorkingMemory F
      → List (MemoryItem F)
      → Phase F × WorkingMemory F × List (MemoryItem F)
  unfolding try_lock_compress unlock_compress take_snapshot remove_items summarize
  compress_step session_id out started memory episodic =
      let (won, memory') = try_lock_compress memory in
      (if won then locked else ended, memory', episodic)
  compress_step session_id out locked memory episodic =
      (snapped (take_snapshot 30 memory), memory, episodic)
  compress_step session_id out (snapped items) memory episodic =
      if out.panics
      then finish memory episodic
      else after_summary items (summarize floats unmarshal items out.reply) memory episodic
  compress_step session_id out (summarized items item) memory episodic =
      let item' = stamp session_id out.id out.now item in
      if out.accepts then (recorded items, memory, item' ∷ episodic) else finish memory episodic
  compress_step session_id out (recorded items) memory episodic =
      finish (remove_items (map (λ item. item.id) items) memory) episodic
  compress_step session_id out ended memory episodic = (ended, memory, episodic)

  unfoldable pub step_at :
      Text
      → Outside
      → ℕ
      → List (Phase F)
      → WorkingMemory F
      → List (MemoryItem F)
      → List (Phase F) × WorkingMemory F × List (MemoryItem F)
  unfolding compress_step
  step_at session_id out n [] memory episodic = ([], memory, episodic)
  step_at session_id out zero (g ∷ gs) memory episodic =
      let (g', memory', episodic') = compress_step session_id out g memory episodic in
      (g' ∷ gs, memory', episodic')
  step_at session_id out (suc n) (g ∷ gs) memory episodic =
      let (gs', memory', episodic') = step_at session_id out n gs memory episodic in
      (g ∷ gs', memory', episodic')

  unfoldable pub step_goroutine : Outside → ℕ → State F → State F
  unfolding step_at
  step_goroutine out n s =
      let (gs, memory, episodic) = step_at s.session_id out n s.goroutines s.memory s.episodic in
      record s { goroutines = gs; memory = memory; episodic = episodic }

  -- a state that a manager comes to
  pub data Reachable (capacity age : ℤ) (session_id : Text) : State F → Type 0 where
    start : Reachable capacity age session_id (new_manager capacity age session_id)
    adding :
        {s : State F} (id : Text) (now : ℕ) (item : MemoryItem F)
        → Reachable capacity age session_id s
        → Reachable capacity age session_id (add_item id now item s)
    checking :
        {s : State F}
        → Reachable capacity age session_id s
        → Reachable capacity age session_id (check_capacity s)
    acting :
        {s : State F} (out : Outside) (n : ℕ)
        → Reachable capacity age session_id s
        → Reachable capacity age session_id (step_goroutine out n s)
