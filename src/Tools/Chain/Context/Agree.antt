-- ===== src/Tools/Chain/Context/Agree.antt =====
-- A template that names no output of a set is expanded alike whatever is stored under those names.
use awesome_agent.Prelude.{
  ◌≡◌, refl, true, false, Option, none, some, List, Text, contains, drop, has_prefix, All, All-mono,
  arith,
}
use awesome_agent.Go.Expand.Laws.{placeholders, expand_congr}
use awesome_agent.Tools.Tool.{Value}
use awesome_agent.Tools.Chain.Defs.{ChainContext, load}
use awesome_agent.Tools.Chain.Context.{
  ExpandError, Marshalled, step_prefix, placeholder, expand_template,
}

-- no placeholder `${steps.n}` of the template has its `n` among the names
abbrev pub Avoids : List Text → Text → Type 0
Avoids names template =
    All (λ place. has_prefix place step_prefix ≡ true → contains names (drop 6 place) ≡ false)
      (placeholders template)

-- two contexts with one input, and one output under each name that is not listed
pub record Agree {F : Type 0} (names : List Text) (a b : ChainContext F) : Type 0 where
  pub input : a.input ≡ b.input
  pub outputs : (n : Text) → contains names n ≡ false → load a n ≡ load b n

module _ {F : Type 0} (marshal : Value F → Marshalled) (names : List Text) (a b : ChainContext F)
    (agree : Agree names a b) where
  placeholder_agree :
      (place : Text) (st : Option ExpandError)
      → (has_prefix place step_prefix ≡ true → contains names (drop 6 place) ≡ false)
      → placeholder marshal a place st ≡ placeholder marshal b place st
  unfolding placeholder
  placeholder_agree place (some e) h = refl
  placeholder_agree place none h = ground (arith, agree.input, agree.outputs (drop 6 place))

  pub expand_template_agree :
      (template : Text)
      → Avoids names template
      → expand_template marshal a template ≡ expand_template marshal b template
  unfolding expand_template
  expand_template_agree template h =
      expand_congr (placeholder marshal a) (placeholder marshal b) template none
        (All-mono (λ place k st. placeholder_agree place st k) (placeholders template) h)
