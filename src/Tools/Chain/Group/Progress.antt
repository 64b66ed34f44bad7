-- ===== src/Tools/Chain/Group/Progress.antt =====
-- wg.Wait returns: after the actions that `wait_all` adds, every goroutine has finished.
use awesome_agent.Prelude.{
  ℕ, zero, suc, ◌+◌, ◌-◌, ◌≤◌, ◌≡◌, refl, List, [], ◌∷◌, ◌++◌, length, Result, ok, err, arith, Text,
  Dict,
}
use awesome_agent.Tools.Tool.{Value, Params}
use awesome_agent.Tools.Registry.{ToolRegistry}
use awesome_agent.Tools.Chain.Defs.{ChainStep, ChainContext}
use awesome_agent.Tools.Chain.Context.{ExpandError, Marshalled, expand_template, resolve_next}
use awesome_agent.Tools.Chain.Execute.{StepError, call_tool}
use awesome_agent.Tools.Chain.Group.{
  Phase, resolving, returned, finished, Goroutine, Shared, resolved, called, act, act_at, play,
  repeat, wait_all,
}

module _ {F : Type 0} where
  -- the actions that are left
  abbrev pub left : Phase F → ℕ
  left (resolving res raw) = length raw + 2
  left (returned v) = 1
  left (finished r) = 0

  abbrev pub left_at : ℕ → List (Goroutine F) → ℕ
  left_at n [] = 0
  left_at zero (g ∷ gs) = left g.phase
  left_at (suc n) (g ∷ gs) = left_at n gs

  -- the goroutines from position `n` on have no more actions left than the steps give them
  abbrev pub Bounded : ℕ → List ChainStep → List (Goroutine F) → Type 0
  Bounded n [] gs = Unit
  Bounded n (step ∷ steps) gs =
      (left_at n gs ≤ length step.param_map + 2) × Bounded (suc n) steps gs

  abbrev pub Ended : ℕ → List ChainStep → List (Goroutine F) → Type 0
  Ended n [] gs = Unit
  Ended n (step ∷ steps) gs = (left_at n gs ≤ 0) × Ended (suc n) steps gs

module _ {F W : Type 0} (marshal : Value F → Marshalled) (registry : ToolRegistry F W) where
  left-called : (r : Result StepError Text × W) → left {F = F} (called r).0 ≤ 1
  left-called (ok v, w) = omega arith
  left-called (err e, w) = omega arith

  left-resolved :
      (i : ℕ) (step : ChainStep) (raw : Dict Text) (r : Result (Text × ExpandError) (Params F))
      → left (resolved i step raw r) ≤ length raw + 2
  left-resolved i step raw (ok res) = omega arith
  left-resolved i step raw (err e) = omega arith

  left-act :
      (i : ℕ) (step : ChainStep) (p : Phase F) (ctx : ChainContext F) (w : W)
      → left (act marshal registry i step p ctx w).0 ≤ left p - 1
  unfolding act
  left-act i step (resolving res []) ctx w =
      omega (arith, left-called (call_tool registry i step.tool_name res w))
  left-act i step (resolving res ((k, t) ∷ raw)) ctx w = omega (
    arith,
    left-resolved i step raw (resolve_next marshal k t res (expand_template marshal ctx t)),
  )
  left-act i step (returned v) ctx w = omega arith
  left-act i step (finished r) ctx w = omega arith

  left_at-act_at-le :
      (k n : ℕ) (gs : List (Goroutine F)) (ctx : ChainContext F) (w : W)
      → left_at n (act_at marshal registry k (gs, ctx, w)).0 ≤ left_at n gs
  unfolding act_at
  left_at-act_at-le k n [] ctx w = omega arith
  left_at-act_at-le zero zero (g ∷ gs) ctx w = omega (arith, left-act g.index g.step g.phase ctx w)
  left_at-act_at-le zero (suc n) (g ∷ gs) ctx w = omega arith
  left_at-act_at-le (suc k) zero (g ∷ gs) ctx w = omega arith
  left_at-act_at-le (suc k) (suc n) (g ∷ gs) ctx w = left_at-act_at-le k n gs ctx w

  left_at-act_at :
      (n : ℕ) (gs : List (Goroutine F)) (ctx : ChainContext F) (w : W)
      → left_at n (act_at marshal registry n (gs, ctx, w)).0 ≤ left_at n gs - 1
  unfolding act_at
  left_at-act_at n [] ctx w = omega arith
  left_at-act_at zero (g ∷ gs) ctx w = left-act g.index g.step g.phase ctx w
  left_at-act_at (suc n) (g ∷ gs) ctx w = left_at-act_at n gs ctx w

  pub left_at-play :
      (schedule : List ℕ) (n : ℕ) (s : Shared F W)
      → left_at n (play marshal registry schedule s).0 ≤ left_at n s.0
  unfolding play
  left_at-play [] n s = omega arith
  left_at-play (k ∷ schedule) n s = omega (
    arith,
    left_at-play schedule n (act_at marshal registry k s),
    left_at-act_at-le k n s.0 s.1 s.2,
  )

  left_at-play-repeat :
      (k n : ℕ) (s : Shared F W)
      → left_at n (play marshal registry (repeat k n) s).0 ≤ left_at n s.0 - k
  unfolding play
  left_at-play-repeat zero n s = omega arith
  left_at-play-repeat (suc k) n s =
      omega
        (arith, left_at-play-repeat k n (act_at marshal registry n s), left_at-act_at n s.0 s.1 s.2)

  pub play-append :
      (xs ys : List ℕ) (s : Shared F W)
      → play marshal registry (xs ++ ys) s ≡ play marshal registry ys (play marshal registry xs s)
  unfolding play
  play-append [] ys s = refl
  play-append (k ∷ xs) ys s = play-append xs ys (act_at marshal registry k s)

  pub Bounded-play :
      (schedule : List ℕ) (n : ℕ) (steps : List ChainStep) (s : Shared F W)
      → Bounded n steps s.0
      → Bounded n steps (play marshal registry schedule s).0
  Bounded-play schedule n [] s h = tt
  Bounded-play schedule n (step ∷ steps) s (b, h) =
      (omega (arith, left_at-play schedule n s), Bounded-play schedule (suc n) steps s h)

  pub Ended-play-wait_all :
      (n : ℕ) (steps : List ChainStep) (s : Shared F W)
      → Bounded n steps s.0
      → Ended n steps (play marshal registry (wait_all n steps) s).0
  Ended-play-wait_all n [] s h = tt
  Ended-play-wait_all n (step ∷ steps) s (b, h) =
      let turns = repeat (length step.param_map + 2) n in
      let s' = play marshal registry turns s in
      rw (play-append turns (wait_all (suc n) steps) s) (
        omega (
          arith,
          left_at-play (wait_all (suc n) steps) n s',
          left_at-play-repeat (length step.param_map + 2) n s,
        ),
        Ended-play-wait_all (suc n) steps s' (Bounded-play turns (suc n) steps s h),
      )
