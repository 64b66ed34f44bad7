-- ===== src/Memory/Manager/Conservation/Run.antt =====
-- The same along every interleaving.
use awesome_agent.Prelude.{
  ℕ, zero, suc, ◌≡◌, refl, Bool, true, false, Option, ℤ, List, [], ◌∷◌, Text, Result, ok, err,
  ◌>>=◌, if◌then◌else◌, if_elim, All, All-mono, text_eq_refl, inl, inr,
}
use awesome_agent.Memory.Item.{MemoryItem, working}
use awesome_agent.Memory.Working.{
  WorkingMemory, add, try_lock_compress, unlock_compress, is_near_capacity,
}
use awesome_agent.Memory.Compressor.{
  Floats, CompressOutput, CompressError, Reply, summarize, build_episodic_item, call_llm,
}
use awesome_agent.Memory.Manager.{
  Phase, started, locked, snapped, summarized, recorded, ended, Outside, State, new_manager,
  add_item, stamp, check_one, check_capacity, finish, after_summary, compress_step, step_at,
  step_goroutine, Reachable, start, adding, checking, acting,
}
use awesome_agent.Memory.Manager.Conservation.{
  ids, Kept, Sourced, Kept-remove_items, Kept-record, Sourced-record, Sourced-self, Kept-add,
}

module _ {F : Type 0} where
  -- what a goroutine's data has to do with the episodic memory
  abbrev pub PhaseOk : List (MemoryItem F) → Phase F → Type 0
  PhaseOk episodic (summarized items item) = item.source_ids ≡ ids items
  PhaseOk episodic (recorded items) = Sourced items episodic
  PhaseOk episodic started = Unit
  PhaseOk episodic locked = Unit
  PhaseOk episodic (snapped items) = Unit
  PhaseOk episodic ended = Unit

  PhaseOk-record :
      (item : MemoryItem F) (episodic : List (MemoryItem F)) (g : Phase F)
      → PhaseOk episodic g
      → PhaseOk (item ∷ episodic) g
  PhaseOk-record item episodic (summarized items item') h = h
  PhaseOk-record item episodic (recorded items) h = Sourced-record items item episodic h
  PhaseOk-record item episodic started h = tt
  PhaseOk-record item episodic locked h = tt
  PhaseOk-record item episodic (snapped items) h = tt
  PhaseOk-record item episodic ended h = tt

  -- an action on a memory and an episodic memory keeps the identifiers and the other goroutines' data
  abbrev Keeps :
      WorkingMemory F → List (MemoryItem F) → WorkingMemory F → List (MemoryItem F) → Type 0
  Keeps memory episodic memory' episodic' =
      ((g : Phase F) → PhaseOk episodic g → PhaseOk episodic' g)
      × ((evicted : List Text) (a : Text)
          → Kept memory.items episodic evicted a
          → Kept memory'.items episodic' evicted a)

  abbrev Sound :
      WorkingMemory F
      → List (MemoryItem F)
      → Phase F × WorkingMemory F × List (MemoryItem F)
      → Type 0
  Sound memory episodic r = PhaseOk r.2 r.0 × Keeps memory episodic r.1 r.2

  Keeps-self :
      (memory : WorkingMemory F) (episodic : List (MemoryItem F))
      → Keeps memory episodic memory episodic
  Keeps-self memory episodic = (λ g h. h, λ evicted a h. h)

  Sound-finish :
      (memory : WorkingMemory F) (episodic : List (MemoryItem F))
      → Sound memory episodic (finish memory episodic)
  unfolding unlock_compress
  Sound-finish memory episodic = (tt, Keeps-self memory episodic)

  Sound-try :
      (memory : WorkingMemory F) (episodic : List (MemoryItem F))
      → Sound memory episodic (
        if (try_lock_compress memory).0 then locked else ended,
        (try_lock_compress memory).1,
        episodic,
      )
  unfolding try_lock_compress
  Sound-try memory episodic =
      if_elim
        (λ (r : Bool × WorkingMemory F).
          Sound memory episodic (if r.0 then locked else ended, r.1, episodic))
        memory.compressing (false, memory) (true, record memory { compressing = true })
        (λ p. (tt, Keeps-self memory episodic)) (λ p. (tt, Keeps-self memory episodic))

  abbrev SummaryOk : List (MemoryItem F) → Result CompressError (MemoryItem F) → Type 0
  SummaryOk items (err e) = Unit
  SummaryOk items (ok item) = item.source_ids ≡ ids items

module _ {F : Type 0} (floats : Floats F) (unmarshal : Text → Option (CompressOutput F)) where
  SummaryOk-build :
      (items : List (MemoryItem F)) (r : Result CompressError (CompressOutput F))
      → SummaryOk items (r >>= λ output. ok (build_episodic_item floats unmarshal items output))
  unfolding build_episodic_item
  SummaryOk-build items (err e) = tt
  SummaryOk-build items (ok output) = refl

  SummaryOk-summarize :
      (items : List (MemoryItem F)) (reply : Result Text Reply)
      → SummaryOk items (summarize floats unmarshal items reply)
  unfolding summarize
  SummaryOk-summarize [] reply = tt
  SummaryOk-summarize (item ∷ items) reply =
      SummaryOk-build (item ∷ items) (call_llm floats unmarshal reply)

  Sound-after_summary :
      (items : List (MemoryItem F)) (r : Result CompressError (MemoryItem F))
      (memory : WorkingMemory F) (episodic : List (MemoryItem F))
      → SummaryOk items r
      → Sound memory episodic (after_summary floats unmarshal items r memory episodic)
  Sound-after_summary items (err e) memory episodic h = Sound-finish memory episodic
  Sound-after_summary items (ok item) memory episodic h = (h, Keeps-self memory episodic)

  Sound-compress_step :
      (session_id : Text) (out : Outside) (g : Phase F) (memory : WorkingMemory F)
      (episodic : List (MemoryItem F))
      → PhaseOk episodic g
      → Sound memory episodic (compress_step floats unmarshal session_id out g memory episodic)
  unfolding compress_step
  Sound-compress_step session_id out started memory episodic h = Sound-try memory episodic
  Sound-compress_step session_id out locked memory episodic h = (tt, Keeps-self memory episodic)
  Sound-compress_step session_id out (snapped items) memory episodic h =
      if_elim (Sound memory episodic) out.panics _ _ (λ p. Sound-finish memory episodic)
        (λ p.
          Sound-after_summary items (summarize floats unmarshal items out.reply) memory episodic
            (SummaryOk-summarize items out.reply))
  Sound-compress_step session_id out (summarized items item) memory episodic h =
      let item' = stamp session_id out.id out.now item in
      if_elim (Sound memory episodic) out.accepts _ _
        (λ p. (
          Sourced-self items item' episodic h,
          (
            PhaseOk-record item' episodic,
            λ evicted a k. Kept-record memory.items item' episodic evicted a k,
          ),
        ))
        (λ p. Sound-finish memory episodic)
  Sound-compress_step session_id out (recorded items) memory episodic h =
      (tt, (λ g k. k, λ evicted a k. Kept-remove_items items memory episodic evicted a h k))
  Sound-compress_step session_id out ended memory episodic h = (tt, Keeps-self memory episodic)

  Keeps-step_at :
      (session_id : Text) (out : Outside) (n : ℕ) (gs : List (Phase F)) (memory : WorkingMemory F)
      (episodic : List (MemoryItem F))
      → All (PhaseOk episodic) gs
      → let r = step_at floats unmarshal session_id out n gs memory episodic in
        All (PhaseOk r.2) r.0 × Keeps memory episodic r.1 r.2
  unfolding step_at
  Keeps-step_at session_id out n [] memory episodic h = (tt, Keeps-self memory episodic)
  Keeps-step_at session_id out zero (g ∷ gs) memory episodic (p, h) =
      let (q, k) = Sound-compress_step session_id out g memory episodic p in
      ((q, All-mono (λ x y. k.0 x y) gs h), k)
  Keeps-step_at session_id out (suc n) (g ∷ gs) memory episodic (p, h) =
      let (q, k) = Keeps-step_at session_id out n gs memory episodic h in ((k.0 g p, q), k)

  abbrev KeptInv : State F → Type 0
  KeptInv s =
      All (PhaseOk s.episodic) s.goroutines × All (Kept s.memory.items s.episodic s.evicted) s.added

  KeptInv-check_one : (n : ℕ) (s : State F) → KeptInv s → KeptInv (check_one n s)
  KeptInv-check_one zero s h = h
  KeptInv-check_one (suc n) s (p, h) = (
    if_elim (All (PhaseOk s.episodic)) (is_near_capacity s.memory) (started ∷ s.goroutines)
        s.goroutines (λ q. (tt, p)) (λ q. p),
    h,
  )

  KeptInv-check_capacity : (s : State F) → KeptInv s → KeptInv (check_capacity s)
  unfolding check_capacity
  KeptInv-check_capacity s h = KeptInv-check_one s.checking s h

  KeptInv-add_item :
      (id : Text) (now : ℕ) (item : MemoryItem F) (s : State F)
      → KeptInv s
      → KeptInv (add_item id now item s)
  unfolding add_item add
  KeptInv-add_item id now item s (p, h) =
      let item' = record (stamp s.session_id id now item) { memory_type = working } in
      let keep_id = Kept-add s.memory.items s.memory.max_capacity item' s.episodic s.evicted in
      (p, (keep_id id (inl (text_eq_refl id)), All-mono (λ a k. keep_id a (inr k)) s.added h))

  KeptInv-step_goroutine :
      (out : Outside) (n : ℕ) (s : State F)
      → KeptInv s
      → KeptInv (step_goroutine floats unmarshal out n s)
  unfolding step_goroutine
  KeptInv-step_goroutine out n s (p, h) =
      let (q, k) = Keeps-step_at s.session_id out n s.goroutines s.memory s.episodic p in
      (q, All-mono (λ a x. k.1 s.evicted a x) s.added h)

  KeptInv-Reachable :
      (capacity age : ℤ) (session_id : Text) {s : State F}
      → Reachable floats unmarshal capacity age session_id s
      → KeptInv s
  KeptInv-Reachable capacity age session_id start = unfold new_manager in (tt, tt)
  KeptInv-Reachable capacity age session_id (adding {s} id now item r) =
      KeptInv-add_item id now item s (KeptInv-Reachable capacity age session_id r)
  KeptInv-Reachable capacity age session_id (checking {s} r) =
      KeptInv-check_capacity s (KeptInv-Reachable capacity age session_id r)
  KeptInv-Reachable capacity age session_id (acting {s} out n r) =
      KeptInv-step_goroutine out n s (KeptInv-Reachable capacity age session_id r)

  -- In every state that a manager comes to, through any interleaving of the calls of Add and of the
  -- goroutines that compress, with failures and panics among them, the identifier of every item that
  -- was added is in the working memory, among the sources of an item of the episodic memory, or among
  -- those that gave way when the memory was full.
  pub nothing_lost :
      (capacity age : ℤ) (session_id : Text) {s : State F}
      → Reachable floats unmarshal capacity age session_id s
      → All (Kept s.memory.items s.episodic s.evicted) s.added
  nothing_lost capacity age session_id r = (KeptInv-Reachable capacity age session_id r).1
