-- ===== src/Ctx/Tests.antt =====
-- The theorems on the context at concrete packets.
use awesome_agent.Prelude.{
  ℕ, ◌+◌, ◌*◌, ◌/◌, ◌≤◌, ◌≡◌, refl, ◌⊎◌, List, [], ◌∷◌, ◌++◌, map, Text, codes, ltb,
}
use awesome_agent.Ctx.Packet.{ContextSource, ContextPacket, rag, system_instructions, history}
use awesome_agent.Ctx.Selector.{
  Floats, SelectorImpl, select, system_packets, other_packets, sum_tokens, score_packets,
}
use awesome_agent.Ctx.Selector.Budget.{Greedy, select_budget}
use awesome_agent.Ctx.Structurer.{new_structurer, structure}
use awesome_agent.Ctx.Structurer.Sections.{Joined, AllShown, members, structure_lem}

abbrev pub tenths : Floats ℕ
tenths = record { zero = 0; below = ltb; plus = λ a b. a + b; times = λ a b. a * b / 10 }

abbrev pub selector : SelectorImpl ℕ
selector = record {
  relevance_weight = 7;
  recency_weight = 3;
  min_relevance = 1;
  relevance_fn = λ content query. 5;
  recency_fn = λ t. 5;
}

abbrev packet : Text → ℕ → ContextSource → ContextPacket ℕ
packet content token_count source = record {
  content = content;
  timestamp = 0;
  token_count = token_count;
  relevance_score = 9;
  source = source;
  metadata = [];
}

abbrev packets : List (ContextPacket ℕ)
packets =
    packet (codes "doc") 3 rag
    ∷ packet (codes "rules") 2 system_instructions
    ∷ packet (codes "chat") 4 history
    ∷ []

abbrev pub same_order : List (ContextPacket ℕ × ℕ) → List (ContextPacket ℕ × ℕ)
same_order scored = scored

select_budget_example :
    ((6 ≤ sum_tokens (system_packets packets))
      × (select tenths same_order selector packets (codes "q") 6 ≡ system_packets packets))
    ⊎ ((chosen : List (ContextPacket ℕ)) × (select tenths same_order selector packets (codes "q") 6
          ≡ system_packets packets ++ chosen)
        × (sum_tokens (select tenths same_order selector packets (codes "q") 6) ≤ 6)
        × Greedy 6
            (sum_tokens (select tenths same_order selector packets (codes "q") 6))
            (same_order
              (score_packets tenths same_order selector (codes "q") (other_packets packets)))
            chosen)
select_budget_example = select_budget tenths same_order selector packets (codes "q") 6

select_run :
    map (λ p. p.content) (select tenths same_order selector packets (codes "q") 6)
    ≡ codes "rules" ∷ codes "doc" ∷ []
unfolding select
select_run = refl

structure_lem_example :
    (parts : List Text) × Joined (codes "\n\n") parts (structure new_structurer packets (codes "q"))
    × AllShown
        (codes "q")
        (new_structurer {F = ℕ}).output_prompt
        (λ sec. map (λ p. p.content) (members new_structurer packets sec))
        (new_structurer {F = ℕ}).section_order
        parts
structure_lem_example = structure_lem new_structurer packets (codes "q")
