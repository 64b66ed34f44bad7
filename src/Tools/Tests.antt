-- ===== src/Tools/Tests.antt =====
-- The theorems on tools and chains at concrete inputs, and runs of the definitions.
use awesome_agent.Prelude.{
  ℕ, ◌≡◌, refl, Bool, true, false, Option, none, some, List, [], ◌∷◌, ◌++◌, Text, codes, contains,
  text_eq, lookup, insert, has_prefix, ◌↔◌, ◌≤◌, ok, err, arith, leb, ◌&&◌, All, inl,
}
use awesome_agent.Go.Expand.{expand}
use awesome_agent.Tools.Tool.{Value, Outcome, Tool}
use awesome_agent.Tools.Registry.{ToolRegistry, new_tool_registry, register, tool}
use awesome_agent.Tools.Registry.Laws.{register_all, last_named, tool-register_all}
use awesome_agent.Tools.Chain.Defs.{ChainStep, ChainContext, load}
use awesome_agent.Tools.Chain.Refs.{extract_steps_refs}
use awesome_agent.Tools.Chain.Context.{Marshalled, json, expand_template, unknown_prefix}
use awesome_agent.Tools.Chain.Context.Laws.{
  expand_template-unbraced, expand_template-braced, replaced, bracket,
}
use awesome_agent.Tools.Chain.Group.{run_goroutines, joined}
use awesome_agent.Tools.Chain.Run.{Chain, run}
use awesome_agent.Go.Expand.Laws.{placeholders}
use awesome_agent.Tools.Chain.Validate.Groups.{
  is_ok, store_names, Distinct, StepRefersOutside, check_parallel_group_iff,
}
use awesome_agent.Tools.Chain.Validate.Sound.{validate_sound}
use awesome_agent.Tools.Chain.Group.Progress.{left}
use awesome_agent.Tools.Chain.Group.Confluence.{StepAvoids, Stateless, numbered}
use awesome_agent.Tools.Chain.Group.Parallel.{errors_alone, output_alone, run_goroutines_alone}
use awesome_agent.Tools.Chain.Validate.{validate, check_parallel_group}

abbrev F : Type 0
F = Unit {0}

-- ASCII letters and digits, and `_`
abbrev is_word : ℕ → Bool
is_word c = leb b'0' c && leb c b'z'

abbrev marshal : Value F → Marshalled
marshal (Value.text t) = json t
marshal v = json []

-- answers with its parameter `q`
abbrev answer : Option (Value F) → Outcome
answer (some (Value.text t)) = ok t
answer v = err (codes "no q")

abbrev echo : Tool F (Unit {0})
echo = record {
  name = codes "echo";
  description = [];
  parameters = [];
  run = λ params w. (answer (lookup (codes "q") params), w);
}

abbrev registry : ToolRegistry F (Unit {0})
registry = register new_tool_registry echo

abbrev step : Text → Text → Bool → ChainStep
step template name parallel = record {
  tool_name = codes "echo";
  param_map = (codes "q", template) ∷ [];
  store_as = name;
  parallel = parallel;
}

abbrev first : ChainStep
first = step (codes "hello") (codes "a") false

abbrev pair : List ChainStep
pair =
    step (codes "${steps.a}!") (codes "b") true ∷ step (codes "${steps.a}?") (codes "c") true ∷ []

abbrev chain : List ChainStep → Chain F (Unit {0})
chain steps = record {
  name = [];
  description = [];
  input_params = [];
  steps = steps;
  registry = some registry;
}

-- a chain runs, the group in the order 1, 0
chain_runs :
    run marshal (λ i. 1 ∷ 1 ∷ 1 ∷ []) (chain (first ∷ pair)) [] tt ≡ (ok (codes "hello!"), tt)
unfolding run register new_tool_registry expand_template expand tool text_eq
chain_runs = refl

validate_reads_unbraced :
    extract_steps_refs is_word (codes "$steps.s1 and $steps.s2") ≡ codes "s1" ∷ codes "s2" ∷ []
unfolding extract_steps_refs
validate_reads_unbraced = refl

validate_misses_braced : extract_steps_refs is_word (codes "${steps.s1}") ≡ []
unfolding extract_steps_refs
validate_misses_braced = refl

-- Validation does not see a reference in braces, so it accepts a group in which a step reads what
-- another writes, and the group's outcome depends on the interleaving.
abbrev racy : List ChainStep
racy = step (codes "new") (codes "a") true ∷ step (codes "${steps.a}") (codes "b") true ∷ []

racy_accepted : validate is_word (first ∷ racy) ≡ ok tt
unfolding validate extract_steps_refs text_eq
racy_accepted = refl

abbrev after_first : ChainContext F
after_first = record { input = []; steps = (codes "a", codes "hello") ∷ []; last = codes "hello" }

racy_forward :
    load (run_goroutines marshal registry 1 racy [] after_first tt).1 (codes "b")
    ≡ some (codes "new")
unfolding run_goroutines load register new_tool_registry expand_template expand tool text_eq insert
racy_forward = refl

racy_backward :
    load (run_goroutines marshal registry 1 racy (1 ∷ 1 ∷ 1 ∷ []) after_first tt).1 (codes "b")
    ≡ some (codes "hello")
unfolding run_goroutines load register new_tool_registry expand_template expand tool text_eq insert
racy_backward = refl

-- The same with a reference that validation does see, because the name is defined before the group.
abbrev rebound : List ChainStep
rebound = step (codes "x") (codes "a") true ∷ step (codes "$steps.a") (codes "b") true ∷ []

rebound_accepted : validate is_word (first ∷ rebound) ≡ ok tt
unfolding validate extract_steps_refs text_eq
rebound_accepted = refl

tool-register_all_example :
    tool (register_all new_tool_registry (echo ∷ [])) (codes "echo")
    ≡ last_named (codes "echo") (echo ∷ []) none
tool-register_all_example = tool-register_all (echo ∷ []) (codes "echo")

expand_template-unbraced_example :
    (expand_template marshal after_first
      (codes "see " ++ b'$' ∷ (codes "steps" ++ b'.' ∷ codes "a"))).1
    ≡ some (unknown_prefix (codes "steps"))
expand_template-unbraced_example =
    expand_template-unbraced marshal after_first (codes "steps") (codes "see ") (codes "a")
      (inl refl) (omega arith)

expand_template-braced_example :
    expand_template marshal after_first (codes "see " ++ b'$' ∷ (bracket (codes "a") ++ codes "."))
    ≡ (let (v, failed) = replaced (codes "a") (load after_first (codes "a")) in
        (codes "see " ++ (v ++ codes "."), failed))
expand_template-braced_example =
    expand_template-braced marshal after_first (codes "a") (codes "see ") (codes ".") (omega arith)
      (omega arith) (omega arith)

pair_accepted : is_ok (validate is_word (first ∷ pair)) ≡ true
unfolding validate extract_steps_refs text_eq
pair_accepted = refl

pair-Distinct : Distinct (store_names pair)
unfolding contains text_eq
pair-Distinct = (refl, (refl, tt))

pair_avoids : All (StepAvoids (store_names pair)) pair
unfolding placeholders contains text_eq has_prefix
pair_avoids = (((λ _. refl, tt), tt), (((λ _. refl, tt), tt), tt))

registry_Stateless : Stateless marshal registry after_first tt
registry_Stateless name t e params w w' = refl

validate_sound_example :
    Distinct (store_names pair) × All (StepRefersOutside is_word (store_names (first ∷ []))) pair
validate_sound_example =
    validate_sound is_word (first ∷ []) (step (codes "${steps.a}!") (codes "b") true)
      (step (codes "${steps.a}?") (codes "c") true ∷ []) [] refl (refl, (refl, tt)) tt pair_accepted

check_parallel_group_iff_example :
    (is_ok (check_parallel_group is_word pair [] 1) ≡ true)
    ↔ (Distinct (store_names pair) × All (StepRefersOutside is_word []) pair)
check_parallel_group_iff_example = check_parallel_group_iff is_word pair [] 1

run_goroutines_alone_example :
    (joined (run_goroutines marshal registry 1 pair (1 ∷ 0 ∷ []) after_first tt).0
      ≡ errors_alone marshal registry after_first tt (numbered 1 pair))
    × ((n : Text)
        → load (run_goroutines marshal registry 1 pair (1 ∷ 0 ∷ []) after_first tt).1 n
          ≡ output_alone marshal registry after_first tt (numbered 1 pair) n)
    × All
        (λ g. left g.phase ≤ 0)
        (run_goroutines marshal registry 1 pair (1 ∷ 0 ∷ []) after_first tt).0
run_goroutines_alone_example =
    run_goroutines_alone marshal registry after_first tt registry_Stateless 1 pair (1 ∷ 0 ∷ [])
      pair-Distinct pair_avoids
