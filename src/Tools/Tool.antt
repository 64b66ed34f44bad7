-- ===== src/Tools/Tool.antt =====
-- tools/tool.go: the values that a tool is called with, its parameters, and the Tool interface.
-- `F` stands for float64, `W` for the state of the world that a tool reads and changes.
use awesome_agent.Prelude.{ℕ, Bool, List, Option, Text, Dict, Result}

-- An `interface{}` that encoding/json makes, or that a tool's author gives as a default.
mutual
  pub data Value (F : Type 0) : Type 0 where
    null : Value F
    boolean : Bool → Value F
    text : Text → Value F
    float64 : F → Value F
    int : ℕ → Value F
    int64 : ℕ → Value F
    json_number : Text → Value F
    array : Items F → Value F
    object : Fields F → Value F

  pub data Items (F : Type 0) : Type 0 where
    nil : Items F
    cons : Value F → Items F → Items F

  pub data Fields (F : Type 0) : Type 0 where
    end : Fields F
    field : Text → Value F → Fields F → Fields F

pub data ParamType : Type 0 where
  string integer number boolean object array : ParamType
  other : Text → ParamType

pub record ToolParameter (F : Type 0) : Type 0 where
  pub name : Text
  pub type : ParamType
  pub description : Text
  pub required : Bool
  pub default : Option (Value F)
  pub items_type : ParamType

abbrev pub Params : Type 0 → Type 0
Params F = Dict (Value F)

-- `(string, error)`: a result, or the text of an error.
abbrev pub Outcome : Type 0
Outcome = Result Text Text

pub record Tool (F W : Type 0) : Type 0 where
  pub name : Text
  pub description : Text
  pub parameters : List (ToolParameter F)
  pub run : Params F → W → Outcome × W
