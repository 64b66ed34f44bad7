-- ===== src/Tools/Chain/Validate/Sound.antt =====
-- What validation of a whole chain ensures: the condition holds of every parallel group.
use awesome_agent.Prelude.{
  ℕ, zero, suc, ◌+◌, ◌-◌, ◌≤◌, ◌≡◌, refl, Bool, true, false, List, [], ◌∷◌, ◌++◌, length, Text,
  contains, All, All-mono, arith, ◌⊎◌, inl, inr, ◌>>=◌, Bool-cases, if_true, if_false, ap, ◌∙◌,
}
use awesome_agent.Tools.Chain.Defs.{ChainStep}
use awesome_agent.Tools.Chain.Refs.{extract_steps_refs}
use awesome_agent.Tools.Chain.Execute.{leading}
use awesome_agent.Tools.Chain.Validate.{
  define, define_all, check_parallel_group, validate_from, validate,
}
use awesome_agent.Tools.Chain.Validate.Groups.{
  is_ok, is_ok-bind, store_names, Distinct, StepRefersOutside, check_parallel_group_iff,
}

-- every step is marked parallel
abbrev pub AllParallel : List ChainStep → Type 0
AllParallel = All (λ s. s.parallel ≡ true)

-- the list is empty, or its first step is serial
abbrev pub StartsSerial : List ChainStep → Type 0
StartsSerial [] = Unit
StartsSerial (s ∷ steps) = s.parallel ≡ false

-- the list is empty, or its last step is serial
abbrev pub EndsSerial : List ChainStep → Type 0
EndsSerial [] = Unit
EndsSerial (s ∷ []) = s.parallel ≡ false
EndsSerial (s ∷ t ∷ steps) = EndsSerial (t ∷ steps)

-- a maximal run of parallel steps
leading-group :
    (group after : List ChainStep)
    → AllParallel group
    → StartsSerial after
    → leading (group ++ after) ≡ group
unfolding leading
leading-group [] [] h k = refl
leading-group [] (s ∷ after) h k = rw k
leading-group (g ∷ group) after (hg, h) k = rw (hg, leading-group group after h k)

-- the run at the head of a list ends where a serial step stands
leading-before :
    (before rest : List ChainStep) (s : ChainStep)
    → EndsSerial (s ∷ before)
    → s.parallel ≡ true
    → leading (before ++ rest) ≡ leading before
unfolding leading
leading-before [] rest s e p = cc
leading-before (b ∷ before) rest s e p = elim (Bool-cases b.parallel) [
  | inl q ↦ rw (q, leading-before before rest b e q)
  | inr q ↦ rw q
]

EndsSerial-tail :
    (s : ChainStep) (before : List ChainStep) → EndsSerial (s ∷ before) → EndsSerial before
EndsSerial-tail s [] e = tt
EndsSerial-tail s (b ∷ before) e = e

leading-cons :
    (s : ChainStep) (steps : List ChainStep)
    → s.parallel ≡ true
    → leading (s ∷ steps) ≡ s ∷ leading steps
unfolding leading
leading-cons s steps h = if_true s.parallel _ _ h

fits-cons :
    (b : ChainStep) (before : List ChainStep) (k : ℕ)
    → suc k ≤ length (leading (b ∷ before))
    → k ≤ length (leading before)
unfolding leading
fits-cons b before k h = ground arith

-- the names that steps define are among those they store under
contains-define_all :
    (steps : List ChainStep) (names : List Text) (n : Text)
    → contains (define_all steps names) n ≡ true
    → (contains names n ≡ true) ⊎ (contains (store_names steps) n ≡ true)
unfolding define_all contains
contains-define_all [] names n h = inl h
contains-define_all (s ∷ steps) names n h =
    ground (arith, contains-define_all steps (define s.store_as names) n)

contains-store_names-cons :
    (s : ChainStep) (steps : List ChainStep) (n : Text)
    → contains (store_names steps) n ≡ true
    → contains (store_names (s ∷ steps)) n ≡ true
unfolding contains
contains-store_names-cons s steps n h = ground arith

contains-define :
    (s : ChainStep) (steps : List ChainStep) (names : List Text) (n : Text)
    → contains (define s.store_as names) n ≡ true
    → (contains names n ≡ true) ⊎ (contains (store_names (s ∷ steps)) n ≡ true)
unfolding contains define
contains-define s steps names n h = ground arith

contains-leading :
    (steps : List ChainStep) (n : Text)
    → contains (store_names (leading steps)) n ≡ true
    → contains (store_names steps) n ≡ true
unfolding contains leading
contains-leading [] n h = h
contains-leading (s ∷ steps) n h = ground (arith, contains-leading steps n)

contains-leading-cons :
    (s : ChainStep) (steps : List ChainStep) (n : Text)
    → contains (store_names (s ∷ leading steps)) n ≡ true
    → contains (store_names (s ∷ steps)) n ≡ true
unfolding contains
contains-leading-cons s steps n h = ground (arith, contains-leading steps n)

module _ (is_word : ℕ → Bool) where
  -- the group was checked against names that are defined or stored before it
  abbrev CheckedAgainst : List Text → List ChainStep → List ChainStep → Type 0
  CheckedAgainst defined before group =
      (names : List Text) × (offset : ℕ) × (is_ok (check_parallel_group is_word group names offset)
        ≡ true)
      × ((n : Text)
          → contains names n ≡ true
          → (contains defined n ≡ true) ⊎ (contains (store_names before) n ≡ true))

  weaken :
      (defined defined' : List Text) (b : ChainStep) (before group : List ChainStep)
      → ((n : Text)
          → contains defined' n ≡ true
          → (contains defined n ≡ true) ⊎ (contains (store_names (b ∷ before)) n ≡ true))
      → CheckedAgainst defined' before group
      → CheckedAgainst defined (b ∷ before) group
  weaken defined defined' b before group f (names, offset, e, h) =
      (names, offset, e, λ n k. either n (h n k))
    where
      either :
          (n : Text)
          → (contains defined' n ≡ true) ⊎ (contains (store_names before) n ≡ true)
          → (contains defined n ≡ true) ⊎ (contains (store_names (b ∷ before)) n ≡ true)
      either n (inl k) = f n k
      either n (inr k) = inr (contains-store_names-cons b before n k)

  validate_from-serial :
      (defined : List Text) (i : ℕ) (s : ChainStep) (steps : List ChainStep)
      → s.parallel ≡ false
      → validate_from is_word defined i 0 (s ∷ steps)
        ≡ validate_from is_word (define s.store_as defined) (i + 1) 0 steps
  unfolding validate_from
  validate_from-serial defined i s steps h = if_false s.parallel _ _ h

  validate_from-parallel :
      (defined : List Text) (i : ℕ) (s : ChainStep) (steps group : List ChainStep)
      → s.parallel ≡ true
      → leading (s ∷ steps) ≡ group
      → validate_from is_word defined i 0 (s ∷ steps) ≡ (
          check_parallel_group is_word group defined (i + 1) >>= λ _.
          validate_from is_word (define_all group defined) (i + 1) (length group - 1) steps)
  unfolding validate_from
  validate_from-parallel defined i s steps group h e = rw (← e) (if_true s.parallel _ _ h)

  module _ (g : ChainStep) (group after : List ChainStep) (parallel : AllParallel (g ∷ group))
      (serial : StartsSerial after) where
    validate_from_sound :
        (before : List ChainStep) (defined : List Text) (i skip : ℕ)
        → EndsSerial before
        → skip ≤ length (leading before)
        → is_ok (validate_from is_word defined i skip (before ++ (g ∷ group ++ after))) ≡ true
        → CheckedAgainst defined before (g ∷ group)
    validate_from_sound [] defined i (suc skip) ends fits h = absurd (unfold leading in omega arith)
    validate_from_sound [] defined i zero ends fits h =
        let e =
          validate_from-parallel defined i g (group ++ after) (g ∷ group) parallel.0
            (leading-group (g ∷ group) after parallel serial) in
        let (u, checked, rest) =
          is_ok-bind (check_parallel_group is_word (g ∷ group) defined (i + 1)) _ (rw e at h) in
        (defined, i + 1, rw checked, λ n k. inl k)
    validate_from_sound (b ∷ before) defined i (suc skip) ends fits h =
        weaken defined defined b before (g ∷ group) (λ n k. inl k)
          (validate_from_sound before defined (i + 1) skip (EndsSerial-tail b before ends)
            (fits-cons b before skip fits) (unfold validate_from in h))
    validate_from_sound (b ∷ before) defined i zero ends fits h = elim (Bool-cases b.parallel) [
      | inr q ↦
          weaken defined (define b.store_as defined) b before (g ∷ group)
            (contains-define b before defined)
            (validate_from_sound before (define b.store_as defined) (i + 1) 0
              (EndsSerial-tail b before ends) (omega arith)
              (rw (validate_from-serial defined i b (before ++ (g ∷ group ++ after)) q) at h))
      | inl q ↦
          let run = leading-before before (g ∷ group ++ after) b ends q in
          let e =
            validate_from-parallel defined i b (before ++ (g ∷ group ++ after)) (b ∷ leading before)
              q (leading-cons b _ q ∙ ap (λ steps. b ∷ steps) run) in
          let (u, checked, rest) =
            is_ok-bind (check_parallel_group is_word (b ∷ leading before) defined (i + 1)) _
              (rw e at h) in
          weaken defined (define_all (b ∷ leading before) defined) b before (g ∷ group)
            (λ n k. ground (
              arith,
              contains-define_all (b ∷ leading before) defined n,
              contains-leading-cons b before n,
            ))
            (validate_from_sound before (define_all (b ∷ leading before) defined) (i + 1)
              (length (b ∷ leading before) - 1) (EndsSerial-tail b before ends) (omega arith) rest)
    ]

All-RefersOutside_mono :
    (is_word : ℕ → Bool) (names names' : List Text)
    → ((n : Text) → contains names n ≡ true → contains names' n ≡ true)
    → (steps : List ChainStep) → All (StepRefersOutside is_word names) steps
    → All (StepRefersOutside is_word names') steps
All-RefersOutside_mono is_word names names' f =
    All-mono (λ s. All-mono (λ (k, t). All-mono f (extract_steps_refs is_word t)) s.param_map)

-- In a chain that validation accepts, take any maximal run of parallel steps. No two of them store
-- under one name, and each reference that validation reads in one of their templates is to the name
-- of a step before the run.
pub validate_sound :
    (is_word : ℕ → Bool) (before : List ChainStep) (g : ChainStep) (group after : List ChainStep)
    → EndsSerial before
    → AllParallel (g ∷ group)
    → StartsSerial after
    → is_ok (validate is_word (before ++ (g ∷ group ++ after))) ≡ true
    → Distinct (store_names (g ∷ group))
      × All (StepRefersOutside is_word (store_names before)) (g ∷ group)
unfolding validate contains
validate_sound is_word before g group after ends parallel serial h =
    let (names, offset, e, known) =
      validate_from_sound is_word g group after parallel serial before [] 0 0 ends (omega arith)
        h in
    let (distinct, refs) = (check_parallel_group_iff is_word (g ∷ group) names offset).0 e in
    (
      distinct,
      All-RefersOutside_mono is_word names (store_names before) (λ n k. ground (arith, known n k))
          (g ∷ group) refs,
    )
