-- ===== src/Memory/Manager/Invariant.antt =====
-- The lock of the compression has one holder at most, and the memory stays within its capacity.
use awesome_agent.Prelude.{
  ℕ, zero, suc, ◌+◌, ◌≤◌, ◌≡◌, refl, ap, ◌∙◌, Bool, true, false, Option, ℤ, List, [], ◌∷◌, Text,
  Result, ok, err, if◌then◌else◌, arith, length, map, if_elim,
}
use awesome_agent.Memory.Item.{MemoryItem}
use awesome_agent.Memory.Working.{
  WorkingMemory, try_lock_compress, unlock_compress, is_near_capacity, remove_items,
}
use awesome_agent.Memory.Working.Capacity.{
  Fits, Fits-new_working_memory, Fits-add, Fits-remove_items,
}
use awesome_agent.Memory.Compressor.{Floats, CompressOutput, CompressError, summarize}
use awesome_agent.Memory.Manager.{
  Phase, started, locked, snapped, summarized, recorded, ended, Outside, State, new_manager,
  add_item, stamp, check_one, check_capacity, finish, after_summary, compress_step, step_at,
  step_goroutine, Reachable, start, adding, checking, acting,
}

abbrev pub bit : Bool → ℕ
bit true = 1
bit false = 0

bit-le : (b : Bool) → bit b ≤ 1
bit-le true = omega arith
bit-le false = omega arith

module _ {F : Type 0} where
  -- 1 if the goroutine holds the lock
  abbrev pub holds : Phase F → ℕ
  holds started = 0
  holds (locked) = 1
  holds (snapped items) = 1
  holds (summarized items item) = 1
  holds (recorded items) = 1
  holds ended = 0

  abbrev pub holders : List (Phase F) → ℕ
  holders [] = 0
  holders (g ∷ gs) = holds g + holders gs

  -- with `k` holders among the others
  abbrev Locked : ℕ → Phase F × WorkingMemory F × List (MemoryItem F) → Type 0
  Locked k r = Fits r.1 × (holds r.0 + k ≡ bit r.1.compressing)

  Locked-finish :
      (k : ℕ) (memory : WorkingMemory F) (episodic : List (MemoryItem F))
      → Fits memory
      → 1 + k ≡ bit memory.compressing
      → Locked k (finish memory episodic)
  unfolding unlock_compress
  Locked-finish k memory episodic f h = (f, omega (arith, bit-le memory.compressing))

  Locked-try :
      (k : ℕ) (memory : WorkingMemory F) (episodic : List (MemoryItem F))
      → Fits memory
      → k ≡ bit memory.compressing
      → Locked k (
        if (try_lock_compress memory).0 then locked else ended,
        (try_lock_compress memory).1,
        episodic,
      )
  unfolding try_lock_compress
  Locked-try k memory episodic f h =
      if_elim
        (λ (r : Bool × WorkingMemory F). Locked k (if r.0 then locked else ended, r.1, episodic))
        memory.compressing (false, memory) (true, record memory { compressing = true })
        (λ p. (f, omega arith)) (λ p. (f, omega (arith, h ∙ ap bit p)))

module _ {F : Type 0} (floats : Floats F) (unmarshal : Text → Option (CompressOutput F)) where
  Locked-after_summary :
      (k : ℕ) (items : List (MemoryItem F)) (r : Result CompressError (MemoryItem F))
      (memory : WorkingMemory F) (episodic : List (MemoryItem F))
      → Fits memory
      → 1 + k ≡ bit memory.compressing
      → Locked k (after_summary floats unmarshal items r memory episodic)
  Locked-after_summary k items (err e) memory episodic f h = Locked-finish k memory episodic f h
  Locked-after_summary k items (ok item) memory episodic f h = (f, h)

  Locked-compress_step :
      (session_id : Text) (out : Outside) (g : Phase F) (memory : WorkingMemory F)
      (episodic : List (MemoryItem F)) (k : ℕ)
      → Fits memory
      → holds g + k ≡ bit memory.compressing
      → Locked k (compress_step floats unmarshal session_id out g memory episodic)
  unfolding compress_step
  Locked-compress_step session_id out started memory episodic k f h =
      Locked-try k memory episodic f (omega arith)
  Locked-compress_step session_id out locked memory episodic k f h = (f, h)
  Locked-compress_step session_id out (snapped items) memory episodic k f h =
      if_elim (Locked k) out.panics _ _ (λ p. Locked-finish k memory episodic f h)
        (λ p.
          Locked-after_summary k items (summarize floats unmarshal items out.reply) memory episodic
            f h)
  Locked-compress_step session_id out (summarized items item) memory episodic k f h =
      if_elim (Locked k) out.accepts _ _ (λ p. (f, h)) (λ p. Locked-finish k memory episodic f h)
  Locked-compress_step session_id out (recorded items) memory episodic k f h =
      Locked-finish k (remove_items (map (λ item. item.id) items) memory) episodic
        (Fits-remove_items _ memory f) h
  Locked-compress_step session_id out ended memory episodic k f h = (f, h)

  Locked-step_at :
      (session_id : Text) (out : Outside) (n : ℕ) (gs : List (Phase F)) (memory : WorkingMemory F)
      (episodic : List (MemoryItem F)) (k : ℕ)
      → Fits memory
      → holders gs + k ≡ bit memory.compressing
      → let r = step_at floats unmarshal session_id out n gs memory episodic in
        Fits r.1 × (holders r.0 + k ≡ bit r.1.compressing)
  unfolding step_at
  Locked-step_at session_id out n [] memory episodic k f h = (f, h)
  Locked-step_at session_id out zero (g ∷ gs) memory episodic k f h =
      let (f', h') =
        Locked-compress_step session_id out g memory episodic (holders gs + k) f (omega arith) in
      (f', omega arith)
  Locked-step_at session_id out (suc n) (g ∷ gs) memory episodic k f h =
      let (f', h') =
        Locked-step_at session_id out n gs memory episodic (holds g + k) f (omega arith) in
      (f', omega arith)

  abbrev LockInv : State F → Type 0
  LockInv s = Fits s.memory × (holders s.goroutines ≡ bit s.memory.compressing)

  LockInv-check_one : (n : ℕ) (s : State F) → LockInv s → LockInv (check_one n s)
  LockInv-check_one zero s h = h
  LockInv-check_one (suc n) s (f, h) = (
    f,
    if_elim (λ gs. holders gs ≡ bit s.memory.compressing) (is_near_capacity s.memory)
        (started ∷ s.goroutines) s.goroutines (λ p. omega arith) (λ p. h),
  )

  LockInv-check_capacity : (s : State F) → LockInv s → LockInv (check_capacity s)
  unfolding check_capacity
  LockInv-check_capacity s h = LockInv-check_one s.checking s h

  LockInv-add_item :
      (id : Text) (now : ℕ) (item : MemoryItem F) (s : State F)
      → LockInv s
      → LockInv (add_item id now item s)
  unfolding add_item
  LockInv-add_item id now item s (f, h) = (Fits-add (stamp s.session_id id now item) s.memory f, h)

  LockInv-step_goroutine :
      (out : Outside) (n : ℕ) (s : State F)
      → LockInv s
      → LockInv (step_goroutine floats unmarshal out n s)
  unfolding step_goroutine
  LockInv-step_goroutine out n s (f, h) =
      let (f', h') =
        Locked-step_at s.session_id out n s.goroutines s.memory s.episodic 0 f (omega arith) in
      (f', omega arith)

  LockInv-Reachable :
      (capacity age : ℤ) (session_id : Text) {s : State F}
      → Reachable floats unmarshal capacity age session_id s
      → LockInv s
  LockInv-Reachable capacity age session_id start =
      unfold new_manager in (Fits-new_working_memory F capacity age session_id, refl)
  LockInv-Reachable capacity age session_id (adding {s} id now item r) =
      LockInv-add_item id now item s (LockInv-Reachable capacity age session_id r)
  LockInv-Reachable capacity age session_id (checking {s} r) =
      LockInv-check_capacity s (LockInv-Reachable capacity age session_id r)
  LockInv-Reachable capacity age session_id (acting {s} out n r) =
      LockInv-step_goroutine out n s (LockInv-Reachable capacity age session_id r)

  -- In every state that a manager comes to, through any interleaving of the calls of Add and of the
  -- goroutines that compress, and whatever the model and the episodic memory answer, the working
  -- memory is within its capacity, and the goroutines that are between taking the lock and releasing
  -- it are one where the memory is marked as compressing and none where it is not.
  pub one_compression :
      (capacity age : ℤ) (session_id : Text) {s : State F}
      → Reachable floats unmarshal capacity age session_id s
      → (length s.memory.items ≤ s.memory.max_capacity)
        × (holders s.goroutines ≡ bit s.memory.compressing)
  one_compression capacity age session_id r =
      let (f, h) = LockInv-Reachable capacity age session_id r in (f.1, h)
