-- ===== src/Tools/Executor.antt =====
-- tools/executor.go: the tools that a model asks for, with checked parameters.
pub mod Laws
pub mod Tests
use awesome_agent.Prelude.{
  ℕ, Bool, true, false, ◌||◌, Option, none, some, List, [], ◌∷◌, ◌++◌, Text, Dict, codes, lookup,
  insert, has_prefix, keep, is_empty, Result, ok, err, ◌>>=◌, if◌then◌else◌,
}
use awesome_agent.Core.Message.{Message, ToolCall, Content}
use awesome_agent.Tools.Tool.{
  Value, null, boolean, text, float64, int, int64, json_number, array, object, ParamType, string,
  integer, number, other, ToolParameter, Params, Tool,
}
use awesome_agent.Tools.Registry.{ToolRegistry, tool}

pub data ParamError : Type 0 where
  missing_required : Text → ParamError
  wrong_type : Text → ParamType → ParamError

-- what the code asks of float64: whether it is integral, and the conversions to it
pub record Floats (F : Type 0) : Type 0 where
  pub is_integral : F → Bool
  pub of_int : ℕ → F
  pub parse : Text → Option F

abbrev pub has : {A : Type 0} → Option A → Bool
has none = false
has (some a) = true

abbrev pub with_default : {F : Type 0} → Text → Option (Value F) → Params F → Params F
with_default name none params = params
with_default name (some v) params = insert name v params

-- specs[p.Name] = p for each parameter
unfoldable pub specs_of :
    {F : Type 0} → Dict (ToolParameter F) → List (ToolParameter F) → Dict (ToolParameter F)
unfolding insert
specs_of specs [] = specs
specs_of specs (p ∷ parameters) = specs_of (insert p.name p specs) parameters

module _ {F : Type 0} (floats : Floats F) where
  unfoldable pub to_float : Value F → Option F
  to_float (float64 f) = some f
  to_float (int n) = some (floats.of_int n)
  to_float (int64 n) = some (floats.of_int n)
  to_float (json_number s) = floats.parse s
  to_float null = none
  to_float (boolean b) = none
  to_float (text s) = none
  to_float (array vs) = none
  to_float (object fs) = none

  abbrev integral : Option F → Bool
  integral none = false
  integral (some f) = floats.is_integral f

  abbrev is_text : Value F → Bool
  is_text (text s) = true
  is_text _ = false

  abbrev is_boolean : Value F → Bool
  is_boolean (boolean b) = true
  is_boolean _ = false

  abbrev is_object : Value F → Bool
  is_object (object fs) = true
  is_object _ = false

  abbrev is_array : Value F → Bool
  is_array (array vs) = true
  is_array _ = false

  -- whether a value has a type; a type that is none of the constants takes any value
  unfoldable pub has_type : Value F → ParamType → Bool
  unfolding to_float
  has_type v string = is_text v
  has_type v integer = integral (to_float v)
  has_type v number = has (to_float v)
  has_type v ParamType.boolean = is_boolean v
  has_type v ParamType.object = is_object v
  has_type v ParamType.array = is_array v
  has_type v (other name) = true

  unfoldable pub check_type : Text → Value F → ParamType → Result ParamError Bool
  unfolding has_type
  check_type name v expected =
      if has_type v expected then ok true else err (wrong_type name expected)

  -- the loop over the specifications, in the order that the iteration over the map takes
  unfoldable pub fill_params : Dict (ToolParameter F) → Params F → Result ParamError (Params F)
  unfolding check_type lookup insert
  fill_params [] params = ok params
  fill_params ((name, spec) ∷ specs) params = elim (lookup name params) [
    | none ↦
        if spec.required
        then err (missing_required name)
        else fill_params specs (with_default name spec.default params)
    | some v ↦ check_type name v spec.type >>= λ b. fill_params specs params
  ]

  -- parameters without a specification go, unless their names start with an underscore
  unfoldable pub drop_unknown : Dict (ToolParameter F) → Params F → Params F
  unfolding lookup has_prefix
  drop_unknown specs params =
      keep (λ entry. has (lookup entry.0 specs) || has_prefix entry.0 (codes "_")) params

abbrev pub answer : Text → Text → Message
answer id content = record {
  role = codes "tool";
  content = Content.string content;
  name = [];
  tool_calls = [];
  tool_call_id = id;
}

-- no arguments are no parameters
abbrev pub arguments_of :
    {F : Type 0} → (Text → Result Text (Params F)) → Text → Result Text (Params F)
arguments_of unmarshal [] = ok []
arguments_of unmarshal (c ∷ s) = unmarshal (c ∷ s)

-- `order` is the order that the iteration over a map takes; `unmarshal` is json.Unmarshal, with no
-- parameters for null; the last two are %q and %v of fmt.
module _ {F W : Type 0} (floats : Floats F)
    (order : Dict (ToolParameter F) → Dict (ToolParameter F))
    (unmarshal : Text → Result Text (Params F)) (quote_text : Text → Text)
    (show_error : ParamError → Text) where
  unfoldable pub validate_params : Tool F W → Params F → Result ParamError (Params F)
  unfolding specs_of fill_params drop_unknown
  validate_params t params =
      let specs = specs_of [] t.parameters in
      fill_params floats (order specs) params >>= λ filled. ok (drop_unknown floats specs filled)

  abbrev pub ran : Text → Result Text Text × W → Message × W
  ran id (ok result, w) = (answer id result, w)
  ran id (err e, w) = (answer id (codes "tool execution failed: " ++ e), w)

  abbrev pub run_checked : Text → Tool F W → W → Result ParamError (Params F) → Message × W
  run_checked id t w (err e) =
      (answer id (codes "parameter validation failed: " ++ show_error e), w)
  run_checked id t w (ok params) = ran id (t.run params w)

  abbrev pub run_parsed : Text → Tool F W → W → Result Text (Params F) → Message × W
  run_parsed id t w (err e) = (answer id (codes "failed to parse arguments: " ++ e), w)
  run_parsed id t w (ok params) = run_checked id t w (validate_params t params)

  abbrev pub run_found : ToolCall → W → Option (Tool F W) → Message × W
  run_found call w none =
      (answer call.id (codes "tool " ++ (quote_text call.name ++ codes " not found")), w)
  run_found call w (some t) = run_parsed call.id t w (arguments_of unmarshal call.arguments)

  unfoldable pub execute_one : ToolRegistry F W → ToolCall → W → Message × W
  unfolding tool validate_params
  execute_one registry call w = run_found call w (tool registry call.name)

  unfoldable pub execute_all : ToolRegistry F W → List ToolCall → W → List Message × W
  unfolding execute_one
  execute_all registry [] w = ([], w)
  execute_all registry (call ∷ calls) w =
      let (message, w') = execute_one registry call w in
      let (messages, w'') = execute_all registry calls w' in (message ∷ messages, w'')

  -- the error of an executor without a registry
  unfoldable pub execute :
      Option (ToolRegistry F W) → List ToolCall → W → Result Text (List Message) × W
  unfolding execute_all
  execute none calls w = (err (codes "ToolRegistry has not been initialized"), w)
  execute (some registry) calls w =
      let (messages, w') = execute_all registry calls w in (ok messages, w')
