-- ===== src/Tools/Chain/Context.antt =====
-- expand and resolve of tools/chain.go. json.Marshal of a value is the parameter `marshal`.
pub mod Laws
pub mod Agree
use awesome_agent.Prelude.{
  ℕ, Bool, Option, none, some, List, [], ◌∷◌, Text, codes, drop, has_prefix, Dict, lookup, insert,
  if◌then◌else◌, Result, ok, err, ◌>>=◌,
}
use awesome_agent.Go.Expand.{expand}
use awesome_agent.Tools.Tool.{Value, Params}
use awesome_agent.Tools.Chain.Defs.{ChainContext, load}

pub data ExpandError : Type 0 where
  no_parameter : Text → ExpandError
  no_step : Text → ExpandError
  unknown_prefix : Text → ExpandError
  marshal_failed : Text → ExpandError

-- the text of the value, or of the error; json.Marshal returns no bytes with an error
pub data Marshalled : Type 0 where
  json : Text → Marshalled
  failure : Text → Marshalled

abbrev pub input_prefix : Text
input_prefix = codes "input."

abbrev pub step_prefix : Text
step_prefix = codes "steps."

module _ {F : Type 0} (marshal : Value F → Marshalled) where
  abbrev marshalled : Marshalled → Text × Option ExpandError
  marshalled (json t) = (t, none)
  marshalled (failure e) = ([], some (marshal_failed e))

  input_value : Text → Option (Value F) → Text × Option ExpandError
  input_value field none = ([], some (no_parameter field))
  input_value field (some v) = marshalled (marshal v)

  step_value : Text → Option Text → Text × Option ExpandError
  step_value field none = ([], some (no_step field))
  step_value field (some v) = (v, none)

  -- the closure that expand hands to os.Expand; the state is the variable `err` outside it
  unfoldable pub placeholder :
      ChainContext F → Text → Option ExpandError → Text × Option ExpandError
  unfolding input_value step_value load has_prefix lookup
  placeholder ctx place (some e) = ([], some e)
  placeholder ctx place none =
      if has_prefix place input_prefix
      then input_value (drop 6 place) (lookup (drop 6 place) ctx.input)
      else if has_prefix place step_prefix
      then step_value (drop 6 place) (load ctx (drop 6 place))
      else ([], some (unknown_prefix place))

  -- chainContext.expand: the text, and the error
  unfoldable pub expand_template : ChainContext F → Text → Text × Option ExpandError
  unfolding placeholder
  expand_template ctx s = expand (placeholder ctx) s none

  abbrev pub resolve_next :
      Text → Text → Params F → Text × Option ExpandError → Result (Text × ExpandError) (Params F)
  resolve_next k template res (val, none) = ok (insert k (Value.text val) res)
  resolve_next k template res (val, some e) = err (template, e)

  unfoldable pub resolve_from :
      ChainContext F → Params F → Dict Text → Result (Text × ExpandError) (Params F)
  resolve_from ctx res [] = ok res
  resolve_from ctx res ((k, template) ∷ raw) =
      resolve_next k template res (expand_template ctx template) >>= λ res'.
      resolve_from ctx res' raw

  -- chainContext.resolve: the first template that fails ends it
  unfoldable pub resolve : ChainContext F → Dict Text → Result (Text × ExpandError) (Params F)
  unfolding resolve_from insert
  resolve ctx raw = resolve_from ctx [] raw
