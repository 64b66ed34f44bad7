-- ===== src/Tools/Chain/Group.antt =====
-- runParallelGroup of tools/chain.go: one goroutine for each step, and the interleavings of their
-- actions. An action expands one template, calls the tool, or stores the result; a schedule says
-- which goroutine acts next. When it is over, the goroutines that are left finish in order
-- (wg.Wait), so that the lists of positions give every interleaving.
pub mod Effects
pub mod Progress
pub mod Confluence
pub mod Parallel
use awesome_agent.Prelude.{
  ℕ, zero, suc, ◌+◌, List, [], ◌∷◌, ◌++◌, Text, Dict, length, Result, ok, err,
}
use awesome_agent.Tools.Tool.{Value, Params}
use awesome_agent.Tools.Registry.{ToolRegistry}
use awesome_agent.Tools.Chain.Defs.{ChainStep, ChainContext, store}
use awesome_agent.Tools.Chain.Context.{ExpandError, Marshalled, expand_template, resolve_next}
use awesome_agent.Tools.Chain.Execute.{StepError, RunError, unresolved, group_failed, call_tool}

-- where a goroutine stands: the parameters that are resolved and the templates that are left; the
-- result that is still to be stored; the end
pub data Phase (F : Type 0) : Type 0 where
  resolving : Params F → Dict Text → Phase F
  returned : Text → Phase F
  finished : Result StepError Text → Phase F

pub record Goroutine (F : Type 0) : Type 0 where
  pub index : ℕ
  pub step : ChainStep
  pub phase : Phase F

abbrev pub Shared : Type 0 → Type 0 → Type 0
Shared F W = List (Goroutine F) × ChainContext F × W

module _ {F : Type 0} where
  abbrev pub resolved : ℕ → ChainStep → Dict Text → Result (Text × ExpandError) (Params F) → Phase F
  resolved i step raw (ok res) = resolving res raw
  resolved i step raw (err e) = finished (err (unresolved i step.tool_name e))

  abbrev pub launch : ℕ → List ChainStep → List (Goroutine F)
  launch i [] = []
  launch i (step ∷ steps) =
      record { index = i; step = step; phase = resolving [] step.param_map } ∷ launch (i + 1) steps

  -- what errors.Join makes of the goroutines' errors, in the order of the steps
  abbrev pub error_of : Phase F → List StepError
  error_of (finished (err e)) = e ∷ []
  error_of _ = []

  abbrev pub joined : List (Goroutine F) → List StepError
  joined [] = []
  joined (g ∷ gs) = error_of g.phase ++ joined gs

-- actions enough for the goroutine at position `n` to end, and for those behind it
abbrev pub repeat : ℕ → ℕ → List ℕ
repeat zero n = []
repeat (suc k) n = n ∷ repeat k n

abbrev pub wait_all : ℕ → List ChainStep → List ℕ
wait_all n [] = []
wait_all n (step ∷ steps) = repeat (length step.param_map + 2) n ++ wait_all (suc n) steps

module _ {F W : Type 0} where
  abbrev pub called : Result StepError Text × W → Phase F × W
  called (ok res, w) = (returned res, w)
  called (err e, w) = (finished (err e), w)

  abbrev pub group_result :
      ℕ → ℕ → List StepError → ChainContext F → W → Result RunError (ChainContext F) × W
  group_result i n [] ctx w = (ok ctx, w)
  group_result i n (e ∷ es) ctx w = (err (group_failed i n (e ∷ es)), w)

module _ {F W : Type 0} (marshal : Value F → Marshalled) (registry : ToolRegistry F W) where
  -- one action of a goroutine
  unfoldable pub act : ℕ → ChainStep → Phase F → ChainContext F → W → Phase F × ChainContext F × W
  unfolding call_tool store
  act i step (resolving res []) ctx w =
      let (phase, w') = called (call_tool registry i step.tool_name res w) in (phase, ctx, w')
  act i step (resolving res ((k, template) ∷ raw)) ctx w = (
    resolved i step raw
        (resolve_next marshal k template res (expand_template marshal ctx template)),
    ctx,
    w,
  )
  act i step (returned res) ctx w = (finished (ok res), store ctx step.store_as res, w)
  act i step (finished r) ctx w = (finished r, ctx, w)

  unfoldable pub act_at : ℕ → Shared F W → Shared F W
  unfolding act
  act_at n ([], ctx, w) = ([], ctx, w)
  act_at zero (g ∷ gs, ctx, w) =
      let (phase, ctx', w') = act g.index g.step g.phase ctx w in
      (record g { phase = phase } ∷ gs, ctx', w')
  act_at (suc n) (g ∷ gs, ctx, w) =
      let (gs', ctx', w') = act_at n (gs, ctx, w) in (g ∷ gs', ctx', w')

  unfoldable pub play : List ℕ → Shared F W → Shared F W
  unfolding act_at
  play [] s = s
  play (n ∷ schedule) s = play schedule (act_at n s)

  unfoldable pub run_goroutines : ℕ → List ChainStep → List ℕ → ChainContext F → W → Shared F W
  unfolding play
  run_goroutines i steps schedule ctx w =
      play (schedule ++ wait_all 0 steps) (launch i steps, ctx, w)

  unfoldable pub run_parallel_group :
      ℕ → List ChainStep → List ℕ → ChainContext F → W → Result RunError (ChainContext F) × W
  unfolding run_goroutines
  run_parallel_group i steps schedule ctx w =
      let (gs, ctx', w') = run_goroutines i steps schedule ctx w in
      group_result i (length steps) (joined gs) ctx' w'
