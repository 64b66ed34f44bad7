-- ===== src/Tools/Chain/Group/Effects.antt =====
-- What one action of a goroutine writes: at most one output, under the name of its step.
use awesome_agent.Prelude.{
  ℕ, zero, suc, ◌≡◌, refl, true, false, Option, none, some, List, [], ◌∷◌, Text, is_empty, contains,
  text_eq, text_eq_iff, lookup-insert, if◌then◌else◌, arith, Result, ok, err, ◌⊎◌, ap, ◌∙◌, Dict,
}
use awesome_agent.Tools.Tool.{Value, Params}
use awesome_agent.Tools.Registry.{ToolRegistry}
use awesome_agent.Tools.Chain.Defs.{ChainStep, ChainContext, store, load}
use awesome_agent.Tools.Chain.Context.{ExpandError, Marshalled, expand_template, resolve_next}
use awesome_agent.Tools.Chain.Execute.{StepError, call_tool}
use awesome_agent.Tools.Chain.Validate.Groups.{store_names, Distinct}
use awesome_agent.Tools.Chain.Group.{
  Phase, resolving, returned, finished, Goroutine, resolved, called, act, act_at,
}

-- an entry of the context after a write under `name`; nothing is written under the empty name
abbrev pub put : Text → Text → Text → Option Text → Option Text
put name v n old = if is_empty name then old else if text_eq name n then some v else old

abbrev pub apply : Option (Text × Text) → Text → Option Text → Option Text
apply none n old = old
apply (some (name, v)) n old = put name v n old

abbrev pub or_else : Option Text → Option Text → Option Text
or_else none b = b
or_else (some v) b = some v

pub load-store :
    {F : Type 0} (ctx : ChainContext F) (name v n : Text)
    → load (store ctx name v) n ≡ put name v n (load ctx n)
unfolding load store
load-store ctx name v n = ground (arith, lookup-insert name n v ctx.steps)

module _ {F : Type 0} where
  abbrev pub effect_of : Text → Phase F → Option (Text × Text)
  effect_of name (returned v) = some (name, v)
  effect_of name _ = none

  -- what a goroutine has stored under `n`
  abbrev pub output_of : Text → Phase F → Text → Option Text
  output_of name (finished (ok v)) n = put name v n none
  output_of name _ n = none

  abbrev pub effect_at : ℕ → List (Goroutine F) → Option (Text × Text)
  effect_at k [] = none
  effect_at zero (g ∷ gs) = effect_of g.step.store_as g.phase
  effect_at (suc k) (g ∷ gs) = effect_at k gs

  abbrev pub overlay : List (Goroutine F) → Text → Option Text → Option Text
  overlay [] n b = b
  overlay (g ∷ gs) n b = or_else (output_of g.step.store_as g.phase n) (overlay gs n b)

  abbrev pub steps_of : List (Goroutine F) → List ChainStep
  steps_of [] = []
  steps_of (g ∷ gs) = g.step ∷ steps_of gs

  -- outside the group's names, nothing is stored
  pub overlay_outside :
      (gs : List (Goroutine F)) (n : Text) (b : Option Text)
      → contains (store_names (steps_of gs)) n ≡ false
      → overlay gs n b ≡ b
  unfolding contains
  overlay_outside [] n b h = refl
  overlay_outside (g ∷ gs) n b h = ground (arith, overlay_outside gs n b, stored g.phase)
    where
      stored :
          (p : Phase F)
          → (is_empty g.step.store_as ≡ true) ⊎ (text_eq g.step.store_as n ≡ false)
          → output_of g.step.store_as p n ≡ none
      stored (resolving res raw) k = refl
      stored (returned v) k = refl
      stored (finished (err e)) k = refl
      stored (finished (ok v)) k = ground arith

  effect_of_named :
      (name name' v : Text) (p : Phase F) → effect_of name p ≡ some (name', v) → name ≡ name'
  effect_of_named name name' v (returned u) e = cc
  effect_of_named name name' v (resolving res raw) e = cc
  effect_of_named name name' v (finished r) e = cc

  effect_at_named :
      (k : ℕ) (gs : List (Goroutine F)) (name v : Text)
      → effect_at k gs ≡ some (name, v)
      → is_empty name ≡ false
      → contains (store_names (steps_of gs)) name ≡ true
  unfolding contains
  effect_at_named k [] name v e h = cc
  effect_at_named zero (g ∷ gs) name v e h =
      ground
        (arith, effect_of_named g.step.store_as name v g.phase, text_eq_iff g.step.store_as name)
  effect_at_named (suc k) (g ∷ gs) name v e h = ground (arith, effect_at_named k gs name v)

module _ {F W : Type 0} (marshal : Value F → Marshalled) (registry : ToolRegistry F W) where
  Distinct-tail :
      (g : Goroutine F) (gs : List (Goroutine F))
      → Distinct (store_names (steps_of (g ∷ gs)))
      → Distinct (store_names (steps_of gs))
  Distinct-tail g gs d = ground arith

  load-act :
      (i : ℕ) (step : ChainStep) (p : Phase F) (ctx : ChainContext F) (w : W) (n : Text)
      → load (act marshal registry i step p ctx w).1 n
        ≡ apply (effect_of step.store_as p) n (load ctx n)
  unfolding act
  load-act i step (resolving res []) ctx w n = refl
  load-act i step (resolving res ((k, t) ∷ raw)) ctx w n = refl
  load-act i step (returned v) ctx w n = load-store ctx step.store_as v n
  load-act i step (finished r) ctx w n = refl

  output-called :
      (name : Text) (r : Result StepError Text × W) (n : Text)
      → output_of {F = F} name (called r).0 n ≡ none
  output-called name (ok v, w) n = refl
  output-called name (err e, w) n = refl

  output-resolved :
      (name : Text) (i : ℕ) (step : ChainStep) (raw : Dict Text)
      (r : Result (Text × ExpandError) (Params F)) (n : Text)
      → output_of name (resolved i step raw r) n ≡ none
  output-resolved name i step raw (ok res) n = refl
  output-resolved name i step raw (err e) n = refl

  output-act :
      (i : ℕ) (step : ChainStep) (p : Phase F) (ctx : ChainContext F) (w : W) (n : Text)
      (b : Option Text)
      → or_else (output_of step.store_as (act marshal registry i step p ctx w).0 n) b
        ≡ apply (effect_of step.store_as p) n (or_else (output_of step.store_as p n) b)
  unfolding act
  output-act i step (resolving res []) ctx w n b =
      ap (λ o. or_else o b)
        (output-called step.store_as (call_tool registry i step.tool_name res w) n)
  output-act i step (resolving res ((k, t) ∷ raw)) ctx w n b =
      ap (λ o. or_else o b)
        (output-resolved step.store_as i step raw
          (resolve_next marshal k t res (expand_template marshal ctx t)) n)
  output-act i step (returned v) ctx w n b = ground arith
  output-act i step (finished r) ctx w n b = refl

  pub load-act_at :
      (k : ℕ) (gs : List (Goroutine F)) (ctx : ChainContext F) (w : W) (n : Text)
      → load (act_at marshal registry k (gs, ctx, w)).1 n ≡ apply (effect_at k gs) n (load ctx n)
  unfolding act_at
  load-act_at k [] ctx w n = refl
  load-act_at zero (g ∷ gs) ctx w n = load-act g.index g.step g.phase ctx w n
  load-act_at (suc k) (g ∷ gs) ctx w n = load-act_at k gs ctx w n

  or_else-apply :
      (o : Option Text) (eff : Option (Text × Text)) (n : Text) (b : Option Text)
      → ((name v : Text)
          → eff ≡ some (name, v)
          → is_empty name ≡ false
          → text_eq name n ≡ true
          → o ≡ none)
      → or_else o (apply eff n b) ≡ apply eff n (or_else o b)
  or_else-apply o none n b h = refl
  or_else-apply o (some (name, v)) n b h = ground (arith, h name v)

  output_of-Distinct :
      (g : Goroutine F) (gs : List (Goroutine F)) (k : ℕ) (n name v : Text)
      → Distinct (store_names (steps_of (g ∷ gs)))
      → effect_at k gs ≡ some (name, v)
      → is_empty name ≡ false
      → text_eq name n ≡ true
      → output_of g.step.store_as g.phase n ≡ none
  output_of-Distinct g gs k n name v d e h k' = ground (
    arith,
    unstored g.phase,
    effect_at_named k gs name v e h,
    text_eq_iff name n,
    text_eq_iff g.step.store_as n,
  )
    where
      unstored :
          (p : Phase F)
          → (is_empty g.step.store_as ≡ true) ⊎ (text_eq g.step.store_as n ≡ false)
          → output_of g.step.store_as p n ≡ none
      unstored (resolving res raw) q = refl
      unstored (returned u) q = refl
      unstored (finished (err c)) q = refl
      unstored (finished (ok u)) q = ground arith

  pub overlay-act_at :
      (k : ℕ) (gs : List (Goroutine F)) (ctx : ChainContext F) (w : W) (n : Text) (b : Option Text)
      → Distinct (store_names (steps_of gs))
      → overlay (act_at marshal registry k (gs, ctx, w)).0 n b
        ≡ apply (effect_at k gs) n (overlay gs n b)
  unfolding act_at
  overlay-act_at k [] ctx w n b d = refl
  overlay-act_at zero (g ∷ gs) ctx w n b d =
      output-act g.index g.step g.phase ctx w n (overlay gs n b)
  overlay-act_at (suc k) (g ∷ gs) ctx w n b d =
      ap (or_else (output_of g.step.store_as g.phase n))
        (overlay-act_at k gs ctx w n b (Distinct-tail g gs d))
      ∙ or_else-apply (output_of g.step.store_as g.phase n) (effect_at k gs) n (overlay gs n b)
          (λ name v. output_of-Distinct g gs k n name v d)
