-- ===== src/Tools/Chain/Group/Confluence.antt =====
-- A parallel group whose steps avoid each other's outputs does the same in every interleaving: what
-- each step does by itself in the context before the group.
use awesome_agent.Prelude.{
  ℕ, zero, suc, ◌+◌, ◌≡◌, refl, sym, ap, ◌∙◌, some, List, [], ◌∷◌, Result, ok, err, Text, Dict, All,
  ◌>>=◌, Option-cases, inl, inr,
}
use mathlib.Core.Path.{subst}
use awesome_agent.Tools.Tool.{Value, Params, Tool, Outcome}
use awesome_agent.Tools.Registry.{ToolRegistry, tool}
use awesome_agent.Tools.Chain.Defs.{ChainStep, ChainContext, load}
use awesome_agent.Tools.Chain.Context.{
  ExpandError, Marshalled, expand_template, resolve, resolve_from, resolve_next,
}
use awesome_agent.Tools.Chain.Context.Agree.{Agree, Avoids, expand_template_agree}
use awesome_agent.Tools.Chain.Execute.{StepError, name_outcome, call_tool, step_result, unresolved}
use awesome_agent.Tools.Chain.Validate.Groups.{store_names, Distinct}
use awesome_agent.Tools.Chain.Group.{
  Phase, resolving, returned, finished, Goroutine, Shared, resolved, called, act, act_at, play,
}
use awesome_agent.Tools.Chain.Group.Effects.{
  apply, effect_at, overlay, steps_of, overlay_outside, load-act_at, overlay-act_at,
}

abbrev pub EntryAvoids : List Text → Text × Text → Type 0
EntryAvoids names (k, template) = Avoids names template

-- no step of the list reads, at run time, an output stored under one of the names
abbrev pub StepAvoids : List Text → ChainStep → Type 0
StepAvoids names step = All (EntryAvoids names) step.param_map

-- the steps with their positions, from `i` on
abbrev pub numbered : ℕ → List ChainStep → List (ℕ × ChainStep)
numbered i [] = []
numbered i (step ∷ steps) = (i, step) ∷ numbered (i + 1) steps

abbrev pub frames : {F : Type 0} → List (Goroutine F) → List (ℕ × ChainStep)
frames [] = []
frames (g ∷ gs) = (g.index, g.step) ∷ frames gs

module _ {F W : Type 0} (marshal : Value F → Marshalled) (registry : ToolRegistry F W)
    (ctx₀ : ChainContext F) (w₀ : W) where
  -- what a step returns in the context before the group
  abbrev pub alone : ℕ → ChainStep → Result StepError Text
  alone i step = (step_result marshal registry ctx₀ i step w₀).0

  -- the world may change what a tool does next, and not what it returns
  abbrev pub Stateless : Type 0
  Stateless =
      (name : Text) (t : Tool F W)
      → tool registry name ≡ some t
      → (params : Params F) (w w' : W) → (t.run params w).0 ≡ (t.run params w').0

  -- a goroutine is on its way to what its step returns alone
  abbrev pub InPhase : List Text → ℕ → ChainStep → Phase F → Type 0
  InPhase names i step (resolving res raw) =
      (resolve_from marshal ctx₀ res raw ≡ resolve marshal ctx₀ step.param_map)
      × All (EntryAvoids names) raw
  InPhase names i step (returned v) = alone i step ≡ ok v
  InPhase names i step (finished r) = alone i step ≡ r

  abbrev pub Good : List Text → Goroutine F → Type 0
  Good names g = InPhase names g.index g.step g.phase

  name_outcome-result :
      (i : ℕ) (name : Text) (r r' : Outcome × W)
      → r.0 ≡ r'.0
      → (name_outcome i name r).0 ≡ (name_outcome i name r').0
  name_outcome-result i name (ok v, w) (ok v', w') h = cc
  name_outcome-result i name (ok v, w) (err e, w') h = cc
  name_outcome-result i name (err e, w) (ok v', w') h = cc
  name_outcome-result i name (err e, w) (err e', w') h = cc

  call_tool_stateless :
      Stateless
      → (i : ℕ) (name : Text) (params : Params F) (w : W)
      → (call_tool registry i name params w).0 ≡ (call_tool registry i name params w₀).0
  unfolding call_tool
  call_tool_stateless same i name params w = elim (Option-cases (tool registry name)) [
    | inl e ↦ rw (e, call_tool)
    | inr (t, e) ↦ rw (e, call_tool) (name_outcome-result i name _ _ (same name t e params w w₀))
  ]

  alone-resolved :
      (i : ℕ) (step : ChainStep) (params : Params F)
      → resolve marshal ctx₀ step.param_map ≡ ok params
      → alone i step ≡ (call_tool registry i step.tool_name params w₀).0
  unfolding step_result
  alone-resolved i step params e = rw (e, alone)

  alone-unresolved :
      (i : ℕ) (step : ChainStep) (e : Text × ExpandError)
      → resolve marshal ctx₀ step.param_map ≡ err e
      → alone i step ≡ err (unresolved i step.tool_name e)
  unfolding step_result
  alone-unresolved i step e h = rw (h, alone)

  InPhase-called :
      (names : List Text) (i : ℕ) (step : ChainStep) (r : Result StepError Text × W)
      → alone i step ≡ r.0
      → InPhase names i step (called r).0
  InPhase-called names i step (ok v, w) h = h
  InPhase-called names i step (err e, w) h = h

  InPhase-resolved :
      (names : List Text) (i : ℕ) (step : ChainStep) (raw : Dict Text)
      (r : Result (Text × ExpandError) (Params F))
      → (r >>= λ res. resolve_from marshal ctx₀ res raw) ≡ resolve marshal ctx₀ step.param_map
      → All (EntryAvoids names) raw
      → InPhase names i step (resolved i step raw r)
  InPhase-resolved names i step raw (ok res) h avoids = (h, avoids)
  InPhase-resolved names i step raw (err e) h avoids = alone-unresolved i step e (sym h)

  resolve_from-nil : (res : Params F) → resolve_from marshal ctx₀ res [] ≡ ok res
  unfolding resolve_from
  resolve_from-nil res = refl

  resolve_from-cons :
      (res : Params F) (k t : Text) (raw : Dict Text)
      → resolve_from marshal ctx₀ res ((k, t) ∷ raw) ≡ (
          resolve_next marshal k t res (expand_template marshal ctx₀ t) >>= λ res'.
          resolve_from marshal ctx₀ res' raw)
  unfolding resolve_from
  resolve_from-cons res k t raw = refl

  InPhase-act :
      Stateless
      → (names : List Text) (i : ℕ) (step : ChainStep) (p : Phase F) (ctx : ChainContext F) (w : W)
      → Agree names ctx ctx₀
      → InPhase names i step p
      → InPhase names i step (act marshal registry i step p ctx w).0
  InPhase-act same names i step (resolving res []) ctx w agree (h, avoids) =
      unfold act in
      InPhase-called names i step (call_tool registry i step.tool_name res w) (
        alone-resolved i step res (sym h ∙ resolve_from-nil res)
        ∙ sym (call_tool_stateless same i step.tool_name res w))
  InPhase-act same names i step (resolving res ((k, t) ∷ raw)) ctx w agree (h, avoids) =
      unfold act in
      subst (λ r. InPhase names i step (resolved i step raw (resolve_next marshal k t res r)))
        (sym (expand_template_agree marshal names ctx ctx₀ agree t avoids.0))
        (InPhase-resolved names i step raw
          (resolve_next marshal k t res (expand_template marshal ctx₀ t))
          (sym (resolve_from-cons res k t raw) ∙ h) avoids.1)
  InPhase-act same names i step (returned v) ctx w agree h = unfold act in h
  InPhase-act same names i step (finished r) ctx w agree h = unfold act in h

  All-Good-act_at :
      Stateless
      → (names : List Text) (k : ℕ) (gs : List (Goroutine F)) (ctx : ChainContext F) (w : W)
      → Agree names ctx ctx₀
      → All (Good names) gs
      → All (Good names) (act_at marshal registry k (gs, ctx, w)).0
  unfolding act_at
  All-Good-act_at same names k [] ctx w agree h = tt
  All-Good-act_at same names zero (g ∷ gs) ctx w agree (hg, h) =
      (InPhase-act same names g.index g.step g.phase ctx w agree hg, h)
  All-Good-act_at same names (suc k) (g ∷ gs) ctx w agree (hg, h) =
      (hg, All-Good-act_at same names k gs ctx w agree h)

  -- what holds of the goroutines and the context after any actions
  pub record Inv (i : ℕ) (steps : List ChainStep) (s : Shared F W) : Type 0 where
    pub good : All (Good (store_names steps)) s.0
    pub input : s.1.input ≡ ctx₀.input
    pub outputs : (n : Text) → load s.1 n ≡ overlay s.0 n (load ctx₀ n)
    pub shape : steps_of s.0 ≡ steps
    pub frame : frames s.0 ≡ numbered i steps

  Inv-Agree :
      (i : ℕ) (steps : List ChainStep) (s : Shared F W)
      → Inv i steps s
      → Agree (store_names steps) s.1 ctx₀
  Inv-Agree i steps s v = record {
    input = v.input;
    outputs = λ n h. v.outputs n ∙ overlay_outside s.0 n (load ctx₀ n) (rw v.shape h);
  }

  input-act :
      (i : ℕ) (step : ChainStep) (p : Phase F) (ctx : ChainContext F) (w : W)
      → (act marshal registry i step p ctx w).1.input ≡ ctx.input
  unfolding act
  input-act i step (resolving res []) ctx w = refl
  input-act i step (resolving res ((k, t) ∷ raw)) ctx w = refl
  input-act i step (returned v) ctx w = refl
  input-act i step (finished r) ctx w = refl

  input-act_at :
      (k : ℕ) (gs : List (Goroutine F)) (ctx : ChainContext F) (w : W)
      → (act_at marshal registry k (gs, ctx, w)).1.input ≡ ctx.input
  unfolding act_at
  input-act_at k [] ctx w = refl
  input-act_at zero (g ∷ gs) ctx w = input-act g.index g.step g.phase ctx w
  input-act_at (suc k) (g ∷ gs) ctx w = input-act_at k gs ctx w

  steps_of-act_at :
      (k : ℕ) (gs : List (Goroutine F)) (ctx : ChainContext F) (w : W)
      → steps_of (act_at marshal registry k (gs, ctx, w)).0 ≡ steps_of gs
  unfolding act_at
  steps_of-act_at k [] ctx w = refl
  steps_of-act_at zero (g ∷ gs) ctx w = refl
  steps_of-act_at (suc k) (g ∷ gs) ctx w = ap (λ steps. g.step ∷ steps) (steps_of-act_at k gs ctx w)

  frames-act_at :
      (k : ℕ) (gs : List (Goroutine F)) (ctx : ChainContext F) (w : W)
      → frames (act_at marshal registry k (gs, ctx, w)).0 ≡ frames gs
  unfolding act_at
  frames-act_at k [] ctx w = refl
  frames-act_at zero (g ∷ gs) ctx w = refl
  frames-act_at (suc k) (g ∷ gs) ctx w =
      ap (λ fs. (g.index, g.step) ∷ fs) (frames-act_at k gs ctx w)

  module _ (same : Stateless) (i : ℕ) (steps : List ChainStep)
      (distinct : Distinct (store_names steps)) where
    Inv-act_at :
        (k : ℕ) (s : Shared F W) → Inv i steps s → Inv i steps (act_at marshal registry k s)
    Inv-act_at k s v = record {
      good = All-Good-act_at same (store_names steps) k s.0 s.1 s.2 (Inv-Agree i steps s v) v.good;
      input = input-act_at k s.0 s.1 s.2 ∙ v.input;
      outputs = λ n.
          load-act_at marshal registry k s.0 s.1 s.2 n
          ∙ ap (apply (effect_at k s.0) n) (v.outputs n)
          ∙ sym
              (overlay-act_at marshal registry k s.0 s.1 s.2 n (load ctx₀ n) (rw v.shape distinct));
      shape = steps_of-act_at k s.0 s.1 s.2 ∙ v.shape;
      frame = frames-act_at k s.0 s.1 s.2 ∙ v.frame;
    }

    pub Inv-play :
        (schedule : List ℕ) (s : Shared F W)
        → Inv i steps s
        → Inv i steps (play marshal registry schedule s)
    unfolding play
    Inv-play [] s v = v
    Inv-play (k ∷ schedule) s v = Inv-play schedule (act_at marshal registry k s) (Inv-act_at k s v)
