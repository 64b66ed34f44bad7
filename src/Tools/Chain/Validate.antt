-- ===== src/Tools/Chain/Validate.antt =====
-- validate and checkParallelGroup of tools/chain.go, which MustNewChain calls on a new chain.
pub mod Groups
pub mod Sound
use awesome_agent.Prelude.{
  ℕ, zero, suc, ◌+◌, ◌-◌, Bool, Option, none, some, List, [], ◌∷◌, Text, is_empty, contains, Dict,
  lookup, insert, length, ◌==◌, if◌then◌else◌, Result, ok, err, ◌>>=◌,
}
use awesome_agent.Tools.Chain.Defs.{ChainStep}
use awesome_agent.Tools.Chain.Refs.{extract_steps_refs}
use awesome_agent.Tools.Chain.Execute.{leading}

-- The positions are those of the messages, as the source computes them.
pub data ValidateError : Type 0 where
  duplicate : ℕ → ℕ → Text → ValidateError
  own_output : ℕ → Text → ValidateError
  same_group : ℕ → ℕ → Text → ValidateError
  undefined : ℕ → Text → ValidateError

abbrev pub Checked : Type 0
Checked = Result ValidateError (Unit {0})

-- definedNames[StoreAs] = true, for a step that stores
unfoldable pub define : Text → List Text → List Text
define name names = if is_empty name then names else name ∷ names

unfoldable pub define_all : List ChainStep → List Text → List Text
unfolding define
define_all [] names = names
define_all (s ∷ steps) names = define_all steps (define s.store_as names)

-- The first loop: the names of the group, each with its place in it, from 1.
unfoldable pub group_names :
    (offset idx : ℕ) → List ChainStep → Dict ℕ → Result ValidateError (Dict ℕ)
unfolding lookup insert
group_names offset idx [] names = ok names
group_names offset idx (s ∷ group) names =
    let rest = group_names offset (idx + 1) group names in
    let added = group_names offset (idx + 1) group (insert s.store_as (idx + 1) names) in
    if is_empty s.store_as then rest else elim (lookup s.store_as names) [
      | some prev ↦ err (duplicate (offset + prev) (offset + idx + 1) s.store_as)
      | none ↦ added
    ]

-- a reference that is not defined outside the group
abbrev pub refuse : (offset idx : ℕ) → Text → Option ℕ → Checked
refuse offset idx ref none = err (undefined (offset + idx + 1) ref)
refuse offset idx ref (some other) =
    if other == idx + 1
    then err (own_output (offset + idx + 1) ref)
    else err (same_group (offset + idx + 1) (offset + other) ref)

module _ (is_word : ℕ → Bool) (outside : List Text) (names : Dict ℕ) (offset : ℕ) where
  unfoldable pub check_refs : ℕ → List Text → Checked
  unfolding contains
  check_refs idx [] = ok tt
  check_refs idx (ref ∷ refs) =
      let rest = check_refs idx refs in
      if contains outside ref then rest else refuse offset idx ref (lookup ref names)

  unfoldable pub check_templates : ℕ → Dict Text → Checked
  unfolding check_refs
  check_templates idx [] = ok tt
  check_templates idx ((k, template) ∷ params) =
      check_refs idx (extract_steps_refs is_word template) >>= λ _. check_templates idx params

  unfoldable pub check_steps : ℕ → List ChainStep → Checked
  unfolding check_templates
  check_steps idx [] = ok tt
  check_steps idx (s ∷ group) = check_templates idx s.param_map >>= λ _. check_steps (idx + 1) group

module _ (is_word : ℕ → Bool) where
  unfoldable pub check_parallel_group : List ChainStep → List Text → ℕ → Checked
  unfolding group_names check_steps
  check_parallel_group group outside step_offset = group_names step_offset 0 group [] >>= λ names.
      check_steps is_word outside names step_offset 0 group

  -- `skip` is the number of steps that `i = end` jumps over
  unfoldable pub validate_from : List Text → (i skip : ℕ) → List ChainStep → Checked
  unfolding check_parallel_group define_all leading
  validate_from defined i skip [] = ok tt
  validate_from defined i (suc skip) (s ∷ steps) = validate_from defined (i + 1) skip steps
  validate_from defined i zero (s ∷ steps) =
      let group = leading (s ∷ steps) in
      let serial = validate_from (define s.store_as defined) (i + 1) 0 steps in
      let parallel = check_parallel_group group defined (i + 1) >>= λ _.
      validate_from (define_all group defined) (i + 1) (length group - 1) steps in
      if s.parallel then parallel else serial

  unfoldable pub validate : List ChainStep → Checked
  unfolding validate_from
  validate steps = validate_from [] 0 0 steps
