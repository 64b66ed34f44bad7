-- ===== src/Ctx/Selector/Budget.antt =====
-- The budget of the selection.
use awesome_agent.Prelude.{
  ℕ, ◌+◌, ◌≤◌, ◌<◌, ◌≡◌, refl, sym, ◌⊎◌, inl, inr, List, [], ◌∷◌, ◌++◌, Text, leb, ltb, if_elim,
  arith,
}
use awesome_agent.Ctx.Packet.{ContextPacket}
use awesome_agent.Ctx.Selector.{
  Floats, SelectorImpl, system_packets, other_packets, sum_tokens, fill, score_packets, select,
}

module _ {F : Type 0} where
  -- The second list is the first without some packets, in the same order, and each one that is left
  -- out would not fit beside the `total` tokens of the selection.
  abbrev pub Greedy : ℕ → ℕ → List (ContextPacket F × F) → List (ContextPacket F) → Type 0
  Greedy budget total [] [] = Unit
  Greedy budget total [] (q ∷ qs) = ⊥
  Greedy budget total ((p, score) ∷ scored) selected =
      ((budget < total + p.token_count) × Greedy budget total scored selected)
      ⊎ ((rest : List (ContextPacket F)) × (selected ≡ p ∷ rest) × Greedy budget total scored rest)

  sum_tokens-append :
      (xs ys : List (ContextPacket F)) → sum_tokens (xs ++ ys) ≡ sum_tokens xs + sum_tokens ys
  unfolding sum_tokens
  sum_tokens-append [] ys = omega arith
  sum_tokens-append (x ∷ xs) ys = omega (arith, sum_tokens-append xs ys)

  Greedy-cast :
      (budget : ℕ) (scored : List (ContextPacket F × F)) (selected : List (ContextPacket F))
      {t t' : ℕ}
      → t ≡ t'
      → Greedy budget t scored selected
      → Greedy budget t' scored selected
  Greedy-cast budget scored selected e g = rw (sym e) g

  abbrev FillOk : ℕ → ℕ → List (ContextPacket F × F) → List (ContextPacket F) → Type 0
  FillOk budget current scored filled =
      (current + sum_tokens filled ≤ budget)
      × Greedy budget (current + sum_tokens filled) scored filled

  FillOk-fill :
      (budget current : ℕ) (scored : List (ContextPacket F × F))
      → current ≤ budget
      → FillOk budget current scored (fill budget current scored)
  unfolding fill sum_tokens
  FillOk-fill budget current [] h = (omega arith, tt)
  FillOk-fill budget current ((p, score) ∷ scored) h =
      if_elim (FillOk budget current ((p, score) ∷ scored)) (ltb budget (current + p.token_count))
        (fill budget current scored) (p ∷ fill budget (current + p.token_count) scored)
        (λ k. let (a, b) = FillOk-fill budget current scored h in (a, inl (ground arith, b)))
        (λ k.
          let (a, b) = FillOk-fill budget (current + p.token_count) scored (ground arith) in
          (omega arith, inr (_, refl, Greedy-cast budget scored _ (omega arith) b)))

module _ {F : Type 0} (floats : Floats F)
    (sort : List (ContextPacket F × F) → List (ContextPacket F × F)) (s : SelectorImpl F) where
  -- The system packets are always selected, first and in their order. Where they fill the budget,
  -- nothing else is. Otherwise the whole selection is within the budget, and what follows the system
  -- packets are the scored packets in the order of the sort, without those that would not fit beside
  -- the selection.
  pub select_budget :
      (packets : List (ContextPacket F)) (query : Text) (budget : ℕ)
      → let system = system_packets packets in
        let selected = select floats sort s packets query budget in
        let scored = sort (score_packets floats sort s query (other_packets packets)) in
        ((budget ≤ sum_tokens system) × (selected ≡ system))
        ⊎ ((chosen : List (ContextPacket F)) × (selected ≡ system ++ chosen)
            × (sum_tokens selected ≤ budget)
            × Greedy budget (sum_tokens selected) scored chosen)
  unfolding select
  select_budget packets query budget =
      let system = system_packets packets in
      let scored = sort (score_packets floats sort s query (other_packets packets)) in
      let chosen = fill budget (sum_tokens system) scored in
      let total = sum_tokens-append system chosen in
      if_elim
        (λ selected.
          ((budget ≤ sum_tokens system) × (selected ≡ system))
          ⊎ ((rest : List (ContextPacket F)) × (selected ≡ system ++ rest)
              × (sum_tokens selected ≤ budget)
              × Greedy budget (sum_tokens selected) scored rest))
        (leb budget (sum_tokens system)) system (system ++ chosen) (λ k. inl (ground arith, refl))
        (λ k.
          let (a, b) = FillOk-fill budget (sum_tokens system) scored (ground arith) in
          inr (chosen, refl, omega arith, Greedy-cast budget scored chosen (sym total) b))
