-- ===== src/Tools/Executor/Tests.antt =====
-- The theorems on the executor at concrete calls.
use awesome_agent.Prelude.{
  ℕ, ◌≡◌, refl, Bool, true, false, Option, none, some, List, [], ◌∷◌, ◌++◌, Text, Dict, codes,
  Result, ok, err, All,
}
use awesome_agent.Tools.Tool.{Value, ToolParameter, Params, Tool, string}
use awesome_agent.Tools.Registry.{ToolRegistry, new_tool_registry, register}
use awesome_agent.Core.Message.{ToolCall}
use awesome_agent.Tools.Executor.{Floats, fill_params, execute_all}
use awesome_agent.Tools.Executor.Laws.{
  AllAnswered, AllAnswered-execute_all, Met, All-Met-fill_params,
}

abbrev F : Type 0
F = Unit {0}

abbrev floats : Floats F
floats = record { is_integral = λ f. true; of_int = λ n. tt; parse = λ s. none }

abbrev city : ToolParameter F
city = record {
  name = codes "city";
  type = string;
  description = [];
  required = true;
  default = none;
  items_type = string;
}

abbrev unit : ToolParameter F
unit = record {
  name = codes "unit";
  type = string;
  description = [];
  required = false;
  default = some (Value.text (codes "C"));
  items_type = string;
}

abbrev specs : Dict (ToolParameter F)
specs = (codes "city", city) ∷ (codes "unit", unit) ∷ []

abbrev params : Params F
params = (codes "city", Value.text (codes "Rome")) ∷ []

abbrev weather : Tool F F
weather = record {
  name = codes "weather";
  description = [];
  parameters = city ∷ unit ∷ [];
  run = λ given w. (ok (codes "sun"), w);
}

abbrev unmarshal : Text → Result Text (Params F)
unmarshal s = ok params

abbrev calls : List ToolCall
calls =
    record { id = codes "1"; name = codes "weather"; arguments = codes "{}" }
    ∷ record { id = codes "2"; name = codes "clock"; arguments = [] }
    ∷ []

abbrev registry : ToolRegistry F F
registry = register new_tool_registry weather

AllAnswered-execute_all_example :
    AllAnswered calls (execute_all floats (λ s. s) unmarshal (λ t. t) (λ e. []) registry calls tt).0
AllAnswered-execute_all_example =
    AllAnswered-execute_all floats (λ s. s) unmarshal (λ t. t) (λ e. []) registry calls tt

fill_params_run :
    fill_params floats specs params ≡ ok (params ++ (codes "unit", Value.text (codes "C")) ∷ [])
unfolding fill_params awesome_agent.Prelude.text_eq
fill_params_run = refl

All-Met-fill_params_example :
    All (Met floats (params ++ (codes "unit", Value.text (codes "C")) ∷ [])) specs
All-Met-fill_params_example =
    All-Met-fill_params floats specs params (params ++ (codes "unit", Value.text (codes "C")) ∷ [])
      fill_params_run
