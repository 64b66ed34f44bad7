-- ===== src/Tools/Chain/Group/Parallel.antt =====
-- The theorem on parallel groups: each step does what it does alone, in every interleaving.
use awesome_agent.Prelude.{
  ℕ, suc, ◌+◌, ◌≤◌, ◌≡◌, refl, sym, ap, ◌∙◌, Option, none, List, [], ◌∷◌, ◌++◌, Result, ok, err,
  arith, Text, All,
}
use awesome_agent.Tools.Tool.{Value}
use awesome_agent.Tools.Registry.{ToolRegistry}
use awesome_agent.Tools.Chain.Defs.{ChainStep, ChainContext, load}
use awesome_agent.Tools.Chain.Context.{Marshalled, resolve}
use awesome_agent.Tools.Chain.Execute.{StepError}
use awesome_agent.Tools.Chain.Validate.Groups.{store_names, Distinct}
use awesome_agent.Tools.Chain.Group.{
  Phase, resolving, returned, finished, Goroutine, Shared, play, wait_all, launch, joined, error_of,
  run_goroutines,
}
use awesome_agent.Tools.Chain.Group.Effects.{or_else, put, output_of, overlay, steps_of}
use awesome_agent.Tools.Chain.Group.Progress.{
  left, play-append, Bounded, Ended, Bounded-play, Ended-play-wait_all,
}
use awesome_agent.Tools.Chain.Group.Confluence.{
  StepAvoids, alone, Stateless, numbered, frames, InPhase, Good, Inv, Inv-play,
}

abbrev pub errors_of : Result StepError Text → List StepError
errors_of (ok v) = []
errors_of (err e) = e ∷ []

abbrev pub text_of : Result StepError Text → Text → Text → Option Text
text_of (ok v) name n = put name v n none
text_of (err e) name n = none

module _ {F W : Type 0} (marshal : Value F → Marshalled) (registry : ToolRegistry F W)
    (ctx₀ : ChainContext F) (w₀ : W) where
  -- the errors of the steps, each run alone, in their order
  abbrev pub errors_alone : List (ℕ × ChainStep) → List StepError
  errors_alone [] = []
  errors_alone ((i, step) ∷ fs) =
      errors_of (alone marshal registry ctx₀ w₀ i step) ++ errors_alone fs

  -- what is stored under `n` when the steps, each run alone, have stored their results
  abbrev pub output_alone : List (ℕ × ChainStep) → Text → Option Text
  output_alone [] n = load ctx₀ n
  output_alone ((i, step) ∷ fs) n =
      or_else (text_of (alone marshal registry ctx₀ w₀ i step) step.store_as n) (output_alone fs n)

  Ended-tail :
      (n : ℕ) (steps : List ChainStep) (g : Goroutine F) (gs : List (Goroutine F))
      → Ended (suc n) steps (g ∷ gs)
      → Ended n steps gs
  Ended-tail n [] g gs h = tt
  Ended-tail n (step ∷ steps) g gs (e, h) = (e, Ended-tail (suc n) steps g gs h)

  All-Ended :
      (gs : List (Goroutine F)) (steps : List ChainStep)
      → steps_of gs ≡ steps
      → Ended 0 steps gs
      → All (λ g. left g.phase ≤ 0) gs
  All-Ended gs steps e h = go gs (rw (sym e) at h)
    where
      go : (gs : List (Goroutine F)) → Ended 0 (steps_of gs) gs → All (λ g. left g.phase ≤ 0) gs
      go [] h = tt
      go (g ∷ gs) (e, h) = (e, go gs (Ended-tail 0 (steps_of gs) g gs h))

  results-ended :
      (names : List Text) (gs : List (Goroutine F)) (n : Text)
      → All (Good marshal registry ctx₀ w₀ names) gs
      → All (λ g. left g.phase ≤ 0) gs
      → (joined gs ≡ errors_alone (frames gs))
        × (overlay gs n (load ctx₀ n) ≡ output_alone (frames gs) n)
  results-ended names [] n good ended = (refl, refl)
  results-ended names (g ∷ gs) n (good, goods) (ended, endeds) =
      let (errors, output) = results-ended names gs n goods endeds in
      (error-ended g.phase good ended errors, output-ended g.phase good ended output)
    where
      error-ended :
          (p : Phase F)
          → InPhase marshal registry ctx₀ w₀ names g.index g.step p
          → left p ≤ 0
          → joined gs ≡ errors_alone (frames gs)
          → error_of p ++ joined gs ≡ errors_alone (frames (g ∷ gs))
      error-ended (resolving res raw) h e k = absurd (omega arith)
      error-ended (returned v) h e k = absurd (omega arith)
      error-ended (finished (ok v)) h e k = rw h k
      error-ended (finished (err c)) h e k = rw h (ap (λ es. c ∷ es) k)

      output-ended :
          (p : Phase F)
          → InPhase marshal registry ctx₀ w₀ names g.index g.step p
          → left p ≤ 0
          → overlay gs n (load ctx₀ n) ≡ output_alone (frames gs) n
          → or_else (output_of g.step.store_as p n) (overlay gs n (load ctx₀ n))
            ≡ output_alone (frames (g ∷ gs)) n
      output-ended (resolving res raw) h e k = absurd (omega arith)
      output-ended (returned v) h e k = absurd (omega arith)
      output-ended (finished (ok v)) h e k = rw h (ap (or_else (put g.step.store_as v n none)) k)
      output-ended (finished (err c)) h e k = rw h k

  Good-launch :
      (names : List Text) (i : ℕ) (steps : List ChainStep)
      → All (StepAvoids names) steps
      → All (Good marshal registry ctx₀ w₀ names) (launch i steps)
  unfolding resolve
  Good-launch names i [] h = tt
  Good-launch names i (step ∷ steps) (avoids, h) =
      ((refl, avoids), Good-launch names (i + 1) steps h)

  overlay-launch :
      (i : ℕ) (steps : List ChainStep) (n : Text) (b : Option Text)
      → overlay (launch {F = F} i steps) n b ≡ b
  overlay-launch i [] n b = refl
  overlay-launch i (step ∷ steps) n b = overlay-launch (i + 1) steps n b

  steps_of-launch : (i : ℕ) (steps : List ChainStep) → steps_of (launch {F = F} i steps) ≡ steps
  steps_of-launch i [] = refl
  steps_of-launch i (step ∷ steps) = ap (λ ss. step ∷ ss) (steps_of-launch (i + 1) steps)

  frames-launch :
      (i : ℕ) (steps : List ChainStep) → frames (launch {F = F} i steps) ≡ numbered i steps
  frames-launch i [] = refl
  frames-launch i (step ∷ steps) = ap (λ fs. (i, step) ∷ fs) (frames-launch (i + 1) steps)

  Bounded-cons :
      (n : ℕ) (steps : List ChainStep) (g : Goroutine F) (gs : List (Goroutine F))
      → Bounded n steps gs
      → Bounded (suc n) steps (g ∷ gs)
  Bounded-cons n [] g gs h = tt
  Bounded-cons n (step ∷ steps) g gs (b, h) = (b, Bounded-cons (suc n) steps g gs h)

  Bounded-launch : (i : ℕ) (steps : List ChainStep) → Bounded 0 steps (launch {F = F} i steps)
  Bounded-launch i [] = tt
  Bounded-launch i (step ∷ steps) =
      (omega arith, Bounded-cons 0 steps _ (launch (i + 1) steps) (Bounded-launch (i + 1) steps))

  Inv-launch :
      (i : ℕ) (steps : List ChainStep)
      → All (StepAvoids (store_names steps)) steps
      → Inv marshal registry ctx₀ w₀ i steps (launch i steps, ctx₀, w₀)
  Inv-launch i steps h = record {
    good = Good-launch (store_names steps) i steps h;
    input = refl;
    outputs = λ n. sym (overlay-launch i steps n (load ctx₀ n));
    shape = steps_of-launch i steps;
    frame = frames-launch i steps;
  }

  -- Take a parallel group that stores under distinct names, whose steps read none of those names at
  -- run time, over tools whose results do not depend on the state of the world. In every interleaving
  -- of the actions of its goroutines, each of which expands one whole template, calls a tool or stores
  -- a result, they end, and they leave the errors, in the order of the steps, and the stored outputs
  -- of the steps that run alone in the context before the group.
  pub run_goroutines_alone :
      Stateless marshal registry ctx₀ w₀
      → (i : ℕ) (steps : List ChainStep) (schedule : List ℕ) → Distinct (store_names steps)
      → All (StepAvoids (store_names steps)) steps
      → (joined (run_goroutines marshal registry i steps schedule ctx₀ w₀).0
          ≡ errors_alone (numbered i steps))
        × ((n : Text)
            → load (run_goroutines marshal registry i steps schedule ctx₀ w₀).1 n
              ≡ output_alone (numbered i steps) n)
        × All (λ g. left g.phase ≤ 0) (run_goroutines marshal registry i steps schedule ctx₀ w₀).0
  unfolding run_goroutines
  run_goroutines_alone same i steps schedule distinct avoids =
      let s₀ : Shared F W = (launch i steps, ctx₀, w₀) in
      let s : Shared F W = play marshal registry (schedule ++ wait_all 0 steps) s₀ in
      let v =
        Inv-play marshal registry ctx₀ w₀ same i steps distinct (schedule ++ wait_all 0 steps) s₀
          (Inv-launch i steps avoids) in
      let ended = All-Ended s.0 steps v.shape (
        rw (play-append marshal registry schedule (wait_all 0 steps) s₀) (
          Ended-play-wait_all marshal registry 0 steps (play marshal registry schedule s₀)
            (Bounded-play marshal registry schedule 0 steps s₀ (Bounded-launch i steps)))) in
      let results = λ (n : Text). results-ended (store_names steps) s.0 n v.good ended in
      (
        (results []).0 ∙ ap errors_alone v.frame,
        λ n. v.outputs n ∙ (results n).1 ∙ ap (λ fs. output_alone fs n) v.frame,
        ended,
      )
