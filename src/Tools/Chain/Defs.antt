-- ===== src/Tools/Chain/Defs.antt =====
-- The steps of a chain, and its run-time context (ChainStep, chainContext of tools/chain.go).
use awesome_agent.Prelude.{Bool, Option, Text, is_empty, Dict, insert, lookup, if◌then◌else◌}
use awesome_agent.Tools.Tool.{Params}

pub record ChainStep : Type 0 where
  pub tool_name : Text
  -- the entries of the map, in an order of iteration
  pub param_map : Dict Text
  pub store_as : Text
  pub parallel : Bool

-- The lock of the Go type is left out: `store` and `load` are single steps.
pub record ChainContext (F : Type 0) : Type 0 where
  pub input : Params F
  pub steps : Dict Text
  pub last : Text

module _ {F : Type 0} where
  -- chainContext.store
  unfoldable pub store : ChainContext F → Text → Text → ChainContext F
  store ctx as_name tool_res = record ctx {
    steps = if is_empty as_name then ctx.steps else insert as_name tool_res ctx.steps;
    last = tool_res;
  }

  -- chainContext.load
  unfoldable pub load : ChainContext F → Text → Option Text
  load ctx as_name = lookup as_name ctx.steps
