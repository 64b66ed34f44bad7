-- ===== src/Tools/Chain/Execute.antt =====
-- Run, runSerialStep and runParallelGroup of tools/chain.go. A parallel group is run here one step
-- after the other; `Schedule` has its interleavings.
use awesome_agent.Prelude.{ℕ, none, some, List, [], ◌∷◌, Text, if◌then◌else◌, Result, ok, err}
use awesome_agent.Tools.Tool.{Value, Params, Outcome}
use awesome_agent.Tools.Registry.{ToolRegistry, tool}
use awesome_agent.Tools.Chain.Defs.{ChainStep, ChainContext, store}
use awesome_agent.Tools.Chain.Context.{ExpandError, Marshalled, resolve}

-- the number is the step's position, from 0; the messages count from 1
pub data StepError : Type 0 where
  unresolved : ℕ → Text → Text × ExpandError → StepError
  tool_not_found : ℕ → Text → StepError
  tool_failed : ℕ → Text → Text → StepError

pub data RunError : Type 0 where
  no_steps : RunError
  no_registry : RunError
  step_failed : StepError → RunError
  -- first position, number of steps, and what errors.Join joins
  group_failed : ℕ → ℕ → List StepError → RunError

-- the steps at the head of a list that are marked parallel
unfoldable pub leading : List ChainStep → List ChainStep
leading [] = []
leading (s ∷ steps) = let rest = leading steps in if s.parallel then s ∷ rest else []

abbrev pub name_outcome : {W : Type 0} → ℕ → Text → Outcome × W → Result StepError Text × W
name_outcome i name (ok res, w) = (ok res, w)
name_outcome i name (err e, w) = (err (tool_failed i name e), w)

module _ {F W : Type 0} where
  unfoldable pub call_tool : ToolRegistry F W → ℕ → Text → Params F → W → Result StepError Text × W
  call_tool registry i name params w = elim (tool registry name) [
    | none ↦ (err (tool_not_found i name), w)
    | some t ↦ name_outcome i name (t.run params w)
  ]

module _ {F W : Type 0} (marshal : Value F → Marshalled) where
  -- What a step computes from a context, up to the call of `store`: in a serial step and in the
  -- goroutine of a parallel one alike.
  unfoldable pub step_result :
      ToolRegistry F W → ChainContext F → ℕ → ChainStep → W → Result StepError Text × W
  unfolding call_tool resolve
  step_result registry ctx i step w = elim (resolve marshal ctx step.param_map) [
    | err e ↦ (err (unresolved i step.tool_name e), w)
    | ok params ↦ call_tool registry i step.tool_name params w
  ]

  abbrev pub stored :
      ChainContext F → Text → Result StepError Text × W → Result StepError (ChainContext F) × W
  stored ctx name (ok res, w) = (ok (store ctx name res), w)
  stored ctx name (err e, w) = (err e, w)

  unfoldable pub run_serial_step :
      ToolRegistry F W → ℕ → ChainStep → ChainContext F → W → Result StepError (ChainContext F) × W
  unfolding step_result store
  run_serial_step registry i step ctx w =
      stored ctx step.store_as (step_result registry ctx i step w)
