-- ===== src/Ctx/Gatherer/Tests.antt =====
-- The theorems on the gatherer at concrete sources, and runs of the code.
use awesome_agent.Prelude.{
  ℕ, ◌≤◌, ◌≡◌, refl, ◌⊎◌, Option, none, some, List, [], ◌∷◌, ◌++◌, map, Text, codes, length, min,
  Result, ok, err, text_eq,
}
use awesome_agent.Core.Message.{Content, Message}
use awesome_agent.Ctx.Packet.{ContextPacket, custom}
use awesome_agent.Ctx.Selector.{select, sum_tokens}
use awesome_agent.Ctx.Tests.{tenths, selector, same_order}
use awesome_agent.Ctx.Gatherer.{
  NoteMetadata, Notes, GathererImpl, Surroundings, packet_of, system_packet, collect_history,
  collect_notes, estimate_tokens, gather,
}
use awesome_agent.Ctx.Gatherer.Sources.{packet_entry, message_entry, select-gather, collect_limits}

abbrev around : Surroundings ℕ
around = record {
  one = 10;
  six_tenths = 6;
  blocker_score = 8;
  action_score = 8;
  note_score = 7;
  parse_float = λ s. none;
  now = 100;
  zero_time = 0;
  parse_time = λ s. none;
  show_type = λ t. codes "working";
  order = λ ns. ns;
}

abbrev note_of : Text → NoteMetadata
note_of id = record { id = id; title = id; type = codes "blocker"; updated_at = [] }

abbrev tool : Notes
tool = record {
  list_blockers = ok (note_of (codes "a") ∷ []);
  search_notes = λ query. ok (note_of (codes "b") ∷ note_of (codes "a") ∷ []);
  content_of = λ n. ok (codes "text");
}

abbrev gatherer : GathererImpl ℕ
gatherer = record {
  search_memory = none;
  search_rag = some (λ query. err (codes "down"));
  notes = some tool;
}

abbrev chat : List (Message × ℕ)
chat =
    (
      record {
        role = codes "user";
        content = Content.string (codes "hi");
        name = [];
        tool_calls = [];
        tool_call_id = [];
      },
      7,
    )
    ∷ []

abbrev extra : List (ContextPacket ℕ)
extra = packet_of custom (codes "extra") 0 9 ∷ []

select-gather_example :
    let selected =
      select tenths same_order selector
        (gather around gatherer (codes "q") chat (codes "rules") extra)
        (codes "q")
        9 in
    (chosen : List (ContextPacket ℕ)) × (selected ≡ system_packet around (codes "rules") ++ chosen)
    × ((sum_tokens selected ≤ 9) ⊎ (chosen ≡ []))
select-gather_example =
    select-gather around tenths same_order selector gatherer (codes "q") chat (codes "rules") extra
      9 (refl, tt)

collect_limits_example :
    ((earlier : List (Message × ℕ)) × (last : List (Message × ℕ)) × (chat ≡ earlier ++ last)
      × (length last ≡ min (length chat) 32)
      × (map (packet_entry around) (collect_history around chat) ≡ map message_entry last))
    × (length (collect_notes around (codes "q") (some tool)) ≤ 5)
collect_limits_example = collect_limits around (codes "q") chat (some tool)

-- a note that two queries find is taken once
notes_once :
    map (λ (p : ContextPacket ℕ). p.content) (collect_notes around (codes "q") (some tool))
    ≡ codes "[Note: a] (blocker)\ntext" ∷ codes "[Note: b] (blocker)\ntext" ∷ []
unfolding collect_notes awesome_agent.Prelude.contains awesome_agent.Prelude.lookup
    awesome_agent.Prelude.insert text_eq
notes_once = refl

eight_quarters : estimate_tokens (0x4E2D ∷ codes "abcd") ≡ 3
unfolding estimate_tokens
eight_quarters = refl
