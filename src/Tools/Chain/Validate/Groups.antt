-- ===== src/Tools/Chain/Validate/Groups.antt =====
-- What validation accepts.
use awesome_agent.Prelude.{
  ℕ, ◌+◌, ◌≡◌, refl, Bool, true, false, Option, none, some, List, [], ◌∷◌, Text, is_empty, contains,
  text_eq_iff, Dict, lookup, insert, lookup-insert, All, arith, Result, ok, err, if◌then◌else◌,
  ◌>>=◌, Bool-cases, Option-cases, inl, inr, ◌↔◌,
}
use awesome_agent.Tools.Chain.Defs.{ChainStep}
use awesome_agent.Tools.Chain.Refs.{extract_steps_refs}
use awesome_agent.Tools.Chain.Validate.{
  group_names, check_refs, check_templates, check_steps, check_parallel_group, refuse,
  ValidateError,
}

abbrev pub is_ok {ℓ} : {E A : Type ℓ} → Result E A → Bool
is_ok (ok a) = true
is_ok (err e) = false

-- the names under which the steps store
abbrev pub store_names : List ChainStep → List Text
store_names [] = []
store_names (s ∷ steps) =
    if is_empty s.store_as then store_names steps else s.store_as ∷ store_names steps

-- no two steps store under one name
abbrev pub Distinct : List Text → Type 0
Distinct [] = Unit
Distinct (n ∷ ns) = (contains ns n ≡ false) × Distinct ns

module _ (is_word : ℕ → Bool) (outside : List Text) where
  abbrev pub RefersOutside : Text × Text → Type 0
  RefersOutside (k, template) =
      All (λ ref. contains outside ref ≡ true) (extract_steps_refs is_word template)

  -- every reference that validation reads in the step is to a name of `outside`
  abbrev pub StepRefersOutside : ChainStep → Type 0
  StepRefersOutside s = All RefersOutside s.param_map

is_ok-refuse :
    (offset idx : ℕ) (ref : Text) (o : Option ℕ) → is_ok (refuse offset idx ref o) ≡ false
is_ok-refuse offset idx ref none = refl
is_ok-refuse offset idx ref (some other) = ground arith

pub is_ok-bind {ℓ} :
    {E A B : Type ℓ} (m : Result E A) (f : A → Result E B)
    → is_ok (m >>= f) ≡ true
    → (a : A) × (m ≡ ok a) × (is_ok (f a) ≡ true)
is_ok-bind (ok a) f h = (a, refl, h)
is_ok-bind (err e) f h = cc

module _ (is_word : ℕ → Bool) (outside : List Text) (names : Dict ℕ) (offset : ℕ) where
  check_refs_sound :
      (idx : ℕ) (refs : List Text)
      → is_ok (check_refs is_word outside names offset idx refs) ≡ true
      → All (λ ref. contains outside ref ≡ true) refs
  unfolding check_refs
  check_refs_sound idx [] h = tt
  check_refs_sound idx (r ∷ refs) h =
      ground (arith, is_ok-refuse offset idx r (lookup r names), check_refs_sound idx refs)

  check_refs_complete :
      (idx : ℕ) (refs : List Text)
      → All (λ ref. contains outside ref ≡ true) refs
      → check_refs is_word outside names offset idx refs ≡ ok tt
  unfolding check_refs
  check_refs_complete idx [] h = refl
  check_refs_complete idx (r ∷ refs) (hr, h) = rw hr (check_refs_complete idx refs h)

  check_templates_sound :
      (idx : ℕ) (params : Dict Text)
      → is_ok (check_templates is_word outside names offset idx params) ≡ true
      → All (RefersOutside is_word outside) params
  unfolding check_templates
  check_templates_sound idx [] h = tt
  check_templates_sound idx ((k, t) ∷ params) h =
      let (u, e, rest) =
        is_ok-bind (check_refs is_word outside names offset idx (extract_steps_refs is_word t)) _
          h in
      (check_refs_sound idx _ (rw e), check_templates_sound idx params rest)

  check_templates_complete :
      (idx : ℕ) (params : Dict Text)
      → All (RefersOutside is_word outside) params
      → check_templates is_word outside names offset idx params ≡ ok tt
  unfolding check_templates
  check_templates_complete idx [] h = refl
  check_templates_complete idx ((k, t) ∷ params) (ht, h) =
      rw (check_refs_complete idx (extract_steps_refs is_word t) ht)
        (check_templates_complete idx params h)

  check_steps_sound :
      (idx : ℕ) (group : List ChainStep)
      → is_ok (check_steps is_word outside names offset idx group) ≡ true
      → All (StepRefersOutside is_word outside) group
  unfolding check_steps
  check_steps_sound idx [] h = tt
  check_steps_sound idx (s ∷ group) h =
      let (u, e, rest) =
        is_ok-bind (check_templates is_word outside names offset idx s.param_map) _ h in
      (check_templates_sound idx s.param_map (rw e), check_steps_sound (idx + 1) group rest)

  check_steps_complete :
      (idx : ℕ) (group : List ChainStep)
      → All (StepRefersOutside is_word outside) group
      → check_steps is_word outside names offset idx group ≡ ok tt
  unfolding check_steps
  check_steps_complete idx [] h = refl
  check_steps_complete idx (s ∷ group) (hs, h) =
      rw (check_templates_complete idx s.param_map hs) (check_steps_complete (idx + 1) group h)

-- the names of the dictionary do not stand in the list
abbrev Fresh : Dict ℕ → List Text → Type 0
Fresh names ns = (n : Text) → contains ns n ≡ true → lookup n names ≡ none

contains-cons-Fresh :
    (names : Dict ℕ) (m : Text) (v : ℕ) (ns : List Text)
    → lookup m names ≡ none
    → Fresh (insert m v names) ns
    → (contains ns m ≡ false) × Fresh names (m ∷ ns)
unfolding contains
contains-cons-Fresh names m v ns e f = (
  ground (arith, f m, lookup-insert m m v names, text_eq_iff m m),
  λ n. ground (arith, f n, lookup-insert m n v names, text_eq_iff m n),
)

Fresh-cons :
    (names : Dict ℕ) (m : Text) (v : ℕ) (ns : List Text)
    → contains ns m ≡ false
    → Fresh names (m ∷ ns)
    → (lookup m names ≡ none) × Fresh (insert m v names) ns
unfolding contains
Fresh-cons names m v ns e f = (
  ground (arith, f m, text_eq_iff m m),
  λ n. ground (arith, f n, lookup-insert m n v names, text_eq_iff m n),
)

group_names_sound :
    (offset idx : ℕ) (group : List ChainStep) (names : Dict ℕ)
    → is_ok (group_names offset idx group names) ≡ true
    → Distinct (store_names group) × Fresh names (store_names group)
unfolding group_names contains
group_names_sound offset idx [] names h = (tt, λ n. ground arith)
group_names_sound offset idx (s ∷ group) names h = elim (Bool-cases (is_empty s.store_as)) [
  | inl e ↦ rw e (group_names_sound offset (idx + 1) group names (ground arith))
  | inr ne ↦ elim (Option-cases (lookup s.store_as names)) [
    | inl e ↦
        let (d, f) =
          group_names_sound offset (idx + 1) group (insert s.store_as (idx + 1) names)
            (ground arith) in
        let (c, f') = contains-cons-Fresh names s.store_as (idx + 1) (store_names group) e f in
        rw ne ((c, d), f')
    | inr (prev, e) ↦ absurd (ground arith)
  ]
]

group_names_complete :
    (offset idx : ℕ) (group : List ChainStep) (names : Dict ℕ)
    → Distinct (store_names group)
    → Fresh names (store_names group)
    → is_ok (group_names offset idx group names) ≡ true
unfolding group_names contains
group_names_complete offset idx [] names d f = refl
group_names_complete offset idx (s ∷ group) names d f = elim (Bool-cases (is_empty s.store_as)) [
  | inl e ↦ rw e (group_names_complete offset (idx + 1) group names (rw e at d) (rw e at f))
  | inr ne ↦
      let d' : Distinct (s.store_as ∷ store_names group) = rw ne at d in
      let f' : Fresh names (s.store_as ∷ store_names group) = rw ne at f in
      let (e, f'') = Fresh-cons names s.store_as (idx + 1) (store_names group) d'.0 f' in
      rw (ne, e) (group_names_complete offset (idx + 1) group _ d'.1 f'')
]

-- Validation accepts a parallel group exactly if no two of its steps store under one name and each
-- reference that it reads in a template is to a name defined before the group.
pub check_parallel_group_iff :
    (is_word : ℕ → Bool) (group : List ChainStep) (outside : List Text) (offset : ℕ)
    → (is_ok (check_parallel_group is_word group outside offset) ≡ true)
      ↔ (Distinct (store_names group) × All (StepRefersOutside is_word outside) group)
unfolding check_parallel_group
check_parallel_group_iff is_word group outside offset = (
  λ h.
      let (names, e, rest) = is_ok-bind (group_names offset 0 group []) _ h in
      (
        (group_names_sound offset 0 group [] (rw e)).0,
        check_steps_sound is_word outside names offset 0 group rest,
      ),
  λ h.
      let e = group_names_complete offset 0 group [] h.0 (λ n _. unfold lookup in refl) in
      accepted (group_names offset 0 group []) h.1 e,
)
  where
    accepted :
        (m : Result ValidateError (Dict ℕ))
        → All (StepRefersOutside is_word outside) group
        → is_ok m ≡ true
        → is_ok (m >>= λ names. check_steps is_word outside names offset 0 group) ≡ true
    accepted (ok names) h e = rw (check_steps_complete is_word outside names offset 0 group h)
    accepted (err v) h e = cc
