-- ===== src/Tools/Registry.antt =====
-- tools/registry.go: tools by name. `none` is the nil map of a registry that was not made by
-- NewToolRegistry.
pub mod Laws
use awesome_agent.Prelude.{List, [], ◌∷◌, map, Option, none, some, Text, Dict, lookup, insert}
use awesome_agent.Tools.Tool.{Tool}

pub record ToolRegistry (F W : Type 0) : Type 0 where
  pub tools : Option (Dict (Tool F W))

module _ {F W : Type 0} where
  unfoldable pub new_tool_registry : ToolRegistry F W
  new_tool_registry = record { tools = some [] }

  abbrev pub or_make : Option (Dict (Tool F W)) → Dict (Tool F W)
  or_make none = []
  or_make (some m) = m

  -- a tool of the same name is replaced, with a warning in the log
  unfoldable pub register : ToolRegistry F W → Tool F W → ToolRegistry F W
  register r t = record { tools = some (insert t.name t (or_make r.tools)) }

  unfoldable pub tool : ToolRegistry F W → Text → Option (Tool F W)
  tool r name = elim r.tools [ none ↦ none | some m ↦ lookup name m ]

  abbrev second : Text × Tool F W → Tool F W
  second (k, t) = t

  unfoldable pub list : ToolRegistry F W → List (Tool F W)
  list r = elim r.tools [ none ↦ [] | some m ↦ map second m ]
