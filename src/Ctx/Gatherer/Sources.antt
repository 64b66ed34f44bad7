-- ===== src/Ctx/Gatherer/Sources.antt =====
-- The system prompt leads every context, and the history and the notes have their limits.
use awesome_agent.Prelude.{
  ℕ, suc, ◌-◌, ◌≤◌, ◌≡◌, refl, sym, ap, ◌∙◌, ◌⊎◌, inl, inr, false, Option, none, some, List, [],
  ◌∷◌, ◌++◌, append-nil, map, Text, Dict, lookup, length, length-take, length-drop, take,
  take-append-drop, drop, min, keep-append, Result, ok, err, All, arith,
}
use awesome_agent.Core.Message.{Message, show_message}
use awesome_agent.Memory.Item.{MemoryItem}
use awesome_agent.Ctx.Packet.{ContextPacket, history}
use awesome_agent.Ctx.Selector.{SelectorImpl, Floats, is_system, system_packets, sum_tokens, select}
use awesome_agent.Ctx.Selector.Budget.{select_budget}
use awesome_agent.Ctx.Gatherer.{
  RagItem, NoteMetadata, Notes, GathererImpl, Surroundings, ok_or_empty, collect_memory,
  collect_rag, collect_history, note_packet, note_packets, get_note_contents, recalled,
  packets_of_notes, collect_notes, system_packet, gather, packet_of, new_notes,
}

-- the text and the time of a message
abbrev pub message_entry : Message × ℕ → Text × ℕ
message_entry (message, time) = (show_message message, time)

module _ {F : Type 0} where
  -- the packet is no system prompt
  abbrev pub Other : ContextPacket F → Type 0
  Other p = is_system p.source ≡ false

  All-map :
      {A : Type 0} (f : A → ContextPacket F)
      → ((a : A) → Other (f a))
      → (xs : List A) → All Other (map f xs)
  All-map f h [] = tt
  All-map f h (x ∷ xs) = (h x, All-map f h xs)

  keep-Other : (ps : List (ContextPacket F)) → All Other ps → system_packets ps ≡ []
  unfolding system_packets
  keep-Other [] h = refl
  keep-Other (p ∷ ps) (other, h) = ground (arith, keep-Other ps h)

  system_packets-append :
      (ps qs : List (ContextPacket F))
      → All Other ps
      → system_packets qs ≡ []
      → system_packets (ps ++ qs) ≡ []
  unfolding system_packets
  system_packets-append ps qs h e =
      rw (keep-append (λ (p : ContextPacket F). is_system p.source) ps qs, keep-Other ps h, e)

module _ {F : Type 0} (around : Surroundings F) where
  Other-collect_memory :
      (query : Text) (o : Option (Text → Result Text (List (MemoryItem F))))
      → All Other (collect_memory around query o)
  unfolding collect_memory
  Other-collect_memory query none = tt
  Other-collect_memory query (some search) =
      All-map _ (λ item. refl) (ok_or_empty around (search query))

  Other-collect_rag :
      (query : Text) (o : Option (Text → Result Text (List (RagItem F))))
      → All Other (collect_rag around query o)
  unfolding collect_rag
  Other-collect_rag query none = tt
  Other-collect_rag query (some search) =
      All-map _ (λ item. refl) (ok_or_empty around (search query))

  Other-collect_history :
      (messages : List (Message × ℕ)) → All Other (collect_history around messages)
  unfolding collect_history
  Other-collect_history messages =
      All-map _ (λ entry. refl) (drop (length messages - min (length messages) 32) messages)

  Other-cons-note_packet :
      (n : NoteMetadata) (o : Option Text) (ps : List (ContextPacket F))
      → All Other ps
      → All Other (note_packet around n o ++ ps)
  Other-cons-note_packet n none ps h = h
  Other-cons-note_packet n (some content) ps h = (refl, h)

  Other-note_packets :
      (contents : Dict Text) (notes : List NoteMetadata)
      → All Other (note_packets around contents notes)
  unfolding note_packets
  Other-note_packets contents [] = tt
  Other-note_packets contents (n ∷ ns) =
      Other-cons-note_packet n (lookup n.id contents) (note_packets around contents ns)
        (Other-note_packets contents ns)

  Other-packets_of_notes :
      (tool : Notes) (blockers found : Result Text (List NoteMetadata))
      → All Other (packets_of_notes around tool blockers found)
  Other-packets_of_notes tool (err e) found = tt
  Other-packets_of_notes tool (ok blockers) (err e) = tt
  Other-packets_of_notes tool (ok blockers) (ok found) =
      Other-note_packets _ (recalled around blockers found)

  Other-collect_notes : (query : Text) (o : Option Notes) → All Other (collect_notes around query o)
  unfolding collect_notes
  Other-collect_notes query none = tt
  Other-collect_notes query (some tool) =
      Other-packets_of_notes tool tool.list_blockers (tool.search_notes query)

  system_packets-system_packet :
      (instructions : Text) (ps : List (ContextPacket F))
      → system_packets ps ≡ []
      → system_packets (system_packet around instructions ++ ps) ≡ system_packet around instructions
  unfolding system_packets
  system_packets-system_packet [] ps h = h
  system_packets-system_packet (c ∷ s) ps h =
      ap (λ (qs : List (ContextPacket F)). system_packet around (c ∷ s) ++ qs) h

  system_packets-gather :
      (g : GathererImpl F) (query : Text) (messages : List (Message × ℕ)) (instructions : Text)
      (custom : List (ContextPacket F))
      → All Other custom
      → system_packets (gather around g query messages instructions custom)
        ≡ system_packet around instructions
  unfolding gather
  system_packets-gather g query messages instructions custom h =
      system_packets-system_packet instructions _ (
        system_packets-append (collect_memory around query g.search_memory) _
          (Other-collect_memory query g.search_memory)
          (system_packets-append (collect_rag around query g.search_rag) _
            (Other-collect_rag query g.search_rag)
            (system_packets-append (collect_history around messages) _
              (Other-collect_history messages)
              (system_packets-append (collect_notes around query g.notes) custom
                (Other-collect_notes query g.notes) (keep-Other custom h)))))

  -- Let no custom packet be a system prompt. Whatever the memory, the documents, the history and the
  -- notes hold, what Build selects of the gathered packets starts with the packet of the system
  -- prompt, if the prompt is not empty, and either is within the budget or is that packet alone.
  pub select-gather :
      (floats : Floats F) (sort : List (ContextPacket F × F) → List (ContextPacket F × F))
      (s : SelectorImpl F) (g : GathererImpl F) (query : Text) (messages : List (Message × ℕ))
      (instructions : Text) (custom : List (ContextPacket F)) (budget : ℕ)
      → All Other custom
      → let selected =
          select floats sort s (gather around g query messages instructions custom) query budget in
        (chosen : List (ContextPacket F)) × (selected ≡ system_packet around instructions ++ chosen)
        × ((sum_tokens selected ≤ budget) ⊎ (chosen ≡ []))
  select-gather floats sort s g query messages instructions custom budget h =
      let packets = gather around g query messages instructions custom in
      let system = system_packets-gather g query messages instructions custom h in
      elim (select_budget floats sort s packets query budget) [
        | inl (full, same) ↦
            ([], same ∙ system ∙ sym (append-nil (system_packet around instructions)), inr refl)
        | inr (chosen, same, within, greedy) ↦
            (chosen, same ∙ ap (λ (ps : List (ContextPacket F)). ps ++ chosen) system, inl within)
      ]

  length-note_packet :
      (n : NoteMetadata) (o : Option Text) (ps : List (ContextPacket F))
      → length (note_packet around n o ++ ps) ≤ suc (length ps)
  length-note_packet n none ps = omega arith
  length-note_packet n (some content) ps = omega arith

  length-note_packets :
      (contents : Dict Text) (notes : List NoteMetadata)
      → length (note_packets around contents notes) ≤ length notes
  unfolding note_packets
  length-note_packets contents [] = omega arith
  length-note_packets contents (n ∷ ns) = omega (
    arith,
    length-note_packet n (lookup n.id contents) (note_packets around contents ns),
    length-note_packets contents ns,
  )

  length-packets_of_notes :
      (tool : Notes) (blockers found : Result Text (List NoteMetadata))
      → length (packets_of_notes around tool blockers found) ≤ 5
  length-packets_of_notes tool (err e) found = omega arith
  length-packets_of_notes tool (ok blockers) (err e) = omega arith
  length-packets_of_notes tool (ok blockers) (ok found) =
      let notes = recalled around blockers found in
      let (first, seen) = new_notes [] blockers in
      omega (
        arith,
        length-note_packets (get_note_contents around tool (around.order notes) []) notes,
        length-take 5 (first ++ (new_notes seen found).0),
      )

  length-collect_notes :
      (query : Text) (o : Option Notes) → length (collect_notes around query o) ≤ 5
  unfolding collect_notes
  length-collect_notes query none = omega arith
  length-collect_notes query (some tool) =
      length-packets_of_notes tool tool.list_blockers (tool.search_notes query)

  -- the text and the time of a packet
  abbrev pub packet_entry : ContextPacket F → Text × ℕ
  packet_entry p = (p.content, p.timestamp)

  contents-history :
      (xs : List (Message × ℕ))
      → map packet_entry (
          map
            (λ (entry : Message × ℕ).
              packet_of history (show_message entry.0) entry.1 around.six_tenths)
            xs)
        ≡ map message_entry xs
  contents-history [] = refl
  contents-history (x ∷ xs) =
      ap (λ (rest : List (Text × ℕ)). message_entry x ∷ rest) (contents-history xs)

  -- Of a history the last 32 messages, or all of them where there are no more, become packets in
  -- their order, with the text and the time of each, and of the notes five at most.
  pub collect_limits :
      (query : Text) (messages : List (Message × ℕ)) (o : Option Notes)
      → ((earlier : List (Message × ℕ)) × (last : List (Message × ℕ)) × (messages ≡ earlier ++ last)
          × (length last ≡ min (length messages) 32)
          × (map packet_entry (collect_history around messages) ≡ map message_entry last))
        × (length (collect_notes around query o) ≤ 5)
  unfolding collect_history
  collect_limits query messages o =
      let skipped = length messages - min (length messages) 32 in
      (
        (
          take skipped messages,
          drop skipped messages,
          sym (take-append-drop skipped messages),
          omega (arith, length-drop skipped messages),
          contents-history (drop skipped messages),
        ),
        length-collect_notes query o,
      )
