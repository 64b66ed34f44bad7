-- ===== src/Tools/Chain/Run.antt =====
-- Run of tools/chain.go: the loop over the steps of a chain.
use awesome_agent.Prelude.{
  ℕ, zero, suc, ◌+◌, ◌-◌, Option, none, some, List, [], ◌∷◌, Text, length, if◌then◌else◌, Result,
  ok, err,
}
use awesome_agent.Tools.Tool.{Value, Params, ToolParameter}
use awesome_agent.Tools.Registry.{ToolRegistry}
use awesome_agent.Tools.Chain.Defs.{ChainStep, ChainContext}
use awesome_agent.Tools.Chain.Context.{Marshalled}
use awesome_agent.Tools.Chain.Execute.{
  StepError, RunError, no_steps, no_registry, step_failed, leading, run_serial_step,
}
use awesome_agent.Tools.Chain.Group.{run_parallel_group}

pub record Chain (F W : Type 0) : Type 0 where
  pub name : Text
  pub description : Text
  pub input_params : List (ToolParameter F)
  pub steps : List ChainStep
  -- `none` is a nil pointer
  pub registry : Option (ToolRegistry F W)

abbrev pub start : {F : Type 0} → Params F → ChainContext F
start input = record { input = input; steps = []; last = [] }

module _ {F W : Type 0} (marshal : Value F → Marshalled) where
  abbrev pub run_error :
      Result StepError (ChainContext F) × W → Result RunError (ChainContext F) × W
  run_error (ok ctx, w) = (ok ctx, w)
  run_error (err e, w) = (err (step_failed e), w)

  abbrev pub and_then :
      Result RunError (ChainContext F) × W
      → (ChainContext F → W → Result RunError (ChainContext F) × W)
      → Result RunError (ChainContext F) × W
  and_then (ok ctx, w) f = f ctx w
  and_then (err e, w) f = (err e, w)

  -- `i` is the loop's index, and `skip` the number of steps that `i = end - 1` still jumps over.
  -- `schedules i` is the interleaving of the parallel group at position `i`.
  unfoldable pub run_from :
      (schedules : ℕ → List ℕ) (registry : ToolRegistry F W) (i skip : ℕ) (steps : List ChainStep)
      → ChainContext F
      → W
      → Result RunError (ChainContext F) × W
  unfolding run_serial_step run_parallel_group leading
  run_from schedules registry i skip [] ctx w = (ok ctx, w)
  run_from schedules registry i (suc skip) (step ∷ steps) ctx w =
      run_from schedules registry (i + 1) skip steps ctx w
  run_from schedules registry i zero (step ∷ steps) ctx w =
      let group = leading (step ∷ steps) in
      let serial =
        and_then (run_error (run_serial_step marshal registry i step ctx w))
          (λ ctx' w'. run_from schedules registry (i + 1) 0 steps ctx' w') in
      let parallel =
        and_then (run_parallel_group marshal registry i group (schedules i) ctx w)
          (λ ctx' w'. run_from schedules registry (i + 1) (length group - 1) steps ctx' w') in
      if step.parallel then parallel else serial

  abbrev pub last_output : Result RunError (ChainContext F) × W → Result RunError Text × W
  last_output (ok ctx, w) = (ok ctx.last, w)
  last_output (err e, w) = (err e, w)

  unfoldable pub run : (ℕ → List ℕ) → Chain F W → Params F → W → Result RunError Text × W
  unfolding run_from
  run schedules c input w = elim c.steps [
    | [] ↦ (err no_steps, w)
    | step ∷ steps ↦ elim c.registry [
      | none ↦ (err no_registry, w)
      | some registry ↦ last_output (run_from schedules registry 0 0 (step ∷ steps) (start input) w)
    ]
  ]
