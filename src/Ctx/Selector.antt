-- ===== src/Ctx/Selector.antt =====
-- ctx/gssc/selector.go: the packets that go into the budget of tokens.
pub mod Budget
use awesome_agent.Prelude.{
  ℕ, ◌+◌, Bool, true, false, not, List, [], ◌∷◌, ◌++◌, Text, keep, leb, ltb, if◌then◌else◌,
}
use awesome_agent.Ctx.Packet.{
  ContextSource, memory, rag, system_instructions, history, custom, note, ContextPacket,
  is_semantic,
}

-- the operations on float64 that the code uses
pub record Floats (F : Type 0) : Type 0 where
  pub zero : F
  pub below : F → F → Bool
  pub plus : F → F → F
  pub times : F → F → F

pub record SelectorImpl (F : Type 0) : Type 0 where
  pub relevance_weight : F
  pub recency_weight : F
  pub min_relevance : F
  pub relevance_fn : Text → Text → F
  pub recency_fn : ℕ → F

abbrev pub is_system : ContextSource → Bool
is_system system_instructions = true
is_system _ = false

abbrev pub is_memory : ContextSource → Bool
is_memory memory = true
is_memory _ = false

module _ {F : Type 0} where
  unfoldable pub system_packets : List (ContextPacket F) → List (ContextPacket F)
  system_packets packets = keep (λ p. is_system p.source) packets

  unfoldable pub other_packets : List (ContextPacket F) → List (ContextPacket F)
  other_packets packets = keep (λ p. not (is_system p.source)) packets

  unfoldable pub sum_tokens : List (ContextPacket F) → ℕ
  sum_tokens [] = 0
  sum_tokens (p ∷ packets) = p.token_count + sum_tokens packets

  -- the loop that fills the budget, with the tokens that it holds so far
  unfoldable pub fill : ℕ → ℕ → List (ContextPacket F × F) → List (ContextPacket F)
  fill budget current [] = []
  fill budget current ((p, score) ∷ scored) =
      let skipped = fill budget current scored in
      let taken = fill budget (current + p.token_count) scored in
      if ltb budget (current + p.token_count) then skipped else p ∷ taken

  unfoldable pub skip_recency : ContextPacket F → Bool
  unfolding is_semantic
  skip_recency p = if is_memory p.source then is_semantic p.metadata else false

-- `sort` is sort.Slice by the score, highest first; it is not stable.
module _ {F : Type 0} (floats : Floats F)
    (sort : List (ContextPacket F × F) → List (ContextPacket F × F)) (s : SelectorImpl F) where
  -- a negative score of the packet asks for the function
  unfoldable pub relevance_of : Text → ContextPacket F → F
  relevance_of query p =
      if floats.below p.relevance_score floats.zero
      then s.relevance_fn p.content query
      else p.relevance_score

  unfoldable pub combined_score : Text → ContextPacket F → F
  unfolding skip_recency relevance_of
  combined_score query p =
      let relevance = relevance_of query p in
      floats.plus (floats.times s.relevance_weight relevance) (
        floats.times s.recency_weight
          (if skip_recency p then relevance else s.recency_fn p.timestamp))

  unfoldable pub score_packets : Text → List (ContextPacket F) → List (ContextPacket F × F)
  unfolding relevance_of combined_score
  score_packets query [] = []
  score_packets query (p ∷ packets) =
      let rest = score_packets query packets in
      if floats.below (relevance_of query p) s.min_relevance
      then rest
      else (p, combined_score query p) ∷ rest

  unfoldable pub select : List (ContextPacket F) → Text → ℕ → List (ContextPacket F)
  unfolding system_packets other_packets sum_tokens fill score_packets
  select packets query budget =
      let system = system_packets packets in
      let scored = sort (score_packets query (other_packets packets)) in
      let filled = system ++ fill budget (sum_tokens system) scored in
      if leb budget (sum_tokens system) then system else filled
