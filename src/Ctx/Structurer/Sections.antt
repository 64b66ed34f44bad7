-- ===== src/Ctx/Structurer/Sections.antt =====
-- The sections hold the packets of their class.
use awesome_agent.Prelude.{
  ◌≡◌, sym, ap, ◌∙◌, true, false, some, List, [], ◌∷◌, ◌++◌, append_assoc, append-nil, Text, Dict,
  keep, text_eq, text_eq_sound, lookup, insert, lookup-insert, if_true, if_false, Bool-cases, inl,
  inr, map, codes, subst, if_elim, ◌≢◌, text_eq_refl,
}
use awesome_agent.Go.Strings.{join}
use awesome_agent.Ctx.Packet.{ContextPacket}
use awesome_agent.Ctx.Structurer.{
  separator, items_from, items_part, format_section, format_section_items, section_task,
  section_output, StructurerImpl, or_nil, group_packets, part, parts_of, structure,
}

-- the texts with the separator between each two
pub data Joined (sep : Text) : List Text → Text → Type 0 where
  nothing : Joined sep [] []
  one : (t : Text) → Joined sep (t ∷ []) t
  more :
      (t u : Text) (ts : List Text) (r : Text)
      → Joined sep (u ∷ ts) r
      → Joined sep (t ∷ u ∷ ts) (t ++ (sep ++ r))

-- What a section of this name shows, if these are the contents of its packets: the task is the query,
-- the output section the closing prompt, and any other section its contents, if there are any.
pub data Shows (query prompt : Text) : Text → List Text → List Text → Type 0 where
  task :
      (contents : List Text)
      → Shows query prompt (codes "Task") contents ((codes "[Task]\n" ++ query) ∷ [])
  output :
      (contents : List Text)
      → Shows query prompt (codes "Output") contents ((codes "[Output]\n" ++ prompt) ∷ [])
  empty : (sec : Text) → sec ≢ codes "Task" → sec ≢ codes "Output" → Shows query prompt sec [] []
  evidence :
      (c : Text) (contents : List Text) (r : Text)
      → Joined (codes "\n---\n") (c ∷ contents) r
      → Shows query prompt (codes "Evidence") (c ∷ contents) ((codes "[Evidence]\n" ++ r) ∷ [])
  others :
      (sec c : Text) (contents : List Text) (r : Text)
      → sec ≢ codes "Task"
      → sec ≢ codes "Output"
      → sec ≢ codes "Evidence"
      → Joined (codes "\n") (c ∷ contents) r
      → Shows query prompt sec (c ∷ contents) ((codes "[" ++ (sec ++ (codes "]\n" ++ r))) ∷ [])

-- what the sections show, one after the other
pub data AllShown (query prompt : Text) (contents_of : Text → List Text)
    : List Text → List Text → Type 0 where
  done : AllShown query prompt contents_of [] []
  next :
      (sec : Text) (secs shown rest : List Text)
      → Shows query prompt sec (contents_of sec) shown
      → AllShown query prompt contents_of secs rest
      → AllShown query prompt contents_of (sec ∷ secs) (shown ++ rest)

Joined-join : (sep : Text) (ts : List Text) → Joined sep ts (join sep ts)
Joined-join sep [] = nothing
Joined-join sep (t ∷ []) = one t
Joined-join sep (t ∷ u ∷ ts) = more t u ts (join sep (u ∷ ts)) (Joined-join sep (u ∷ ts))

text_eq-same : (s t : Text) → s ≡ t → text_eq s t ≡ true
text_eq-same s t e = rw e (text_eq_refl t)

text_eq-false : (s t : Text) → text_eq s t ≡ false → s ≢ t
text_eq-false s t h e = let same = text_eq-same s t e in cc

module _ {F : Type 0} where
  abbrev contents : List (ContextPacket F) → List Text
  contents packets = map (λ p. p.content) packets

  Joined-items_from :
      (sec : Text) (p : ContextPacket F) (packets : List (ContextPacket F))
      → Joined
          (separator sec)
          (p.content ∷ contents packets)
          (p.content ++ items_from sec false packets)
  unfolding items_from
  Joined-items_from sec p [] =
      subst (Joined (separator sec) (p.content ∷ [])) (sym (append-nil p.content)) (one p.content)
  Joined-items_from sec p (q ∷ packets) =
      more p.content q.content (contents packets) (q.content ++ items_from sec false packets)
        (Joined-items_from sec q packets)

  Shows-items_part :
      (query prompt sec : Text) (packets : List (ContextPacket F))
      → sec ≢ codes "Task"
      → sec ≢ codes "Output"
      → Shows query prompt sec (contents packets) (items_part sec packets)
  unfolding format_section_items items_from
  Shows-items_part query prompt sec [] t o = empty sec t o
  Shows-items_part query prompt sec (p ∷ packets) t o =
      let joined = Joined-items_from sec p packets in
      let body = p.content ++ items_from sec false packets in
      elim (Bool-cases (text_eq sec (codes "Evidence"))) [
        | inl h ↦
            subst
              (λ sec.
                Shows query prompt sec (contents (p ∷ packets)) (format_section sec body ∷ []))
              (sym (text_eq_sound sec (codes "Evidence") h))
              (evidence p.content (contents packets) body
                (subst (λ sep. Joined sep (contents (p ∷ packets)) body) (if_true _ _ _ h) joined))
        | inr h ↦
            others sec p.content (contents packets) body t o
              (text_eq-false sec (codes "Evidence") h)
              (subst (λ sep. Joined sep (contents (p ∷ packets)) body) (if_false _ _ _ h) joined)
      ]

module _ {F : Type 0} (s : StructurerImpl F) where
  -- the packets that the classifier puts into a section, in their order
  abbrev pub members : List (ContextPacket F) → Text → List (ContextPacket F)
  members packets sec = keep (λ p. text_eq (s.classifier p) sec) packets

  lookup-insert-hit :
      (k sec : Text) (v : List (ContextPacket F)) (groups : Dict (List (ContextPacket F)))
      → text_eq k sec ≡ true
      → lookup sec (insert k v groups) ≡ some v
  lookup-insert-hit k sec v groups h = lookup-insert k sec v groups ∙ if_true (text_eq k sec) _ _ h

  lookup-insert-miss :
      (k sec : Text) (v : List (ContextPacket F)) (groups : Dict (List (ContextPacket F)))
      → text_eq k sec ≡ false
      → lookup sec (insert k v groups) ≡ lookup sec groups
  lookup-insert-miss k sec v groups h =
      lookup-insert k sec v groups ∙ if_false (text_eq k sec) _ _ h

  lookup-group_packets :
      (sec : Text) (groups : Dict (List (ContextPacket F))) (packets : List (ContextPacket F))
      → or_nil (lookup sec (group_packets s groups packets))
        ≡ or_nil (lookup sec groups) ++ members packets sec
  unfolding group_packets
  lookup-group_packets sec groups [] = sym (append-nil (or_nil (lookup sec groups)))
  lookup-group_packets sec groups (p ∷ packets) =
      let k = s.classifier p in
      let v = or_nil (lookup k groups) ++ p ∷ [] in
      lookup-group_packets sec (insert k v groups) packets ∙ elim (Bool-cases (text_eq k sec)) [
        | inl h ↦
            ap (λ o. or_nil o ++ members packets sec) (lookup-insert-hit k sec v groups h)
            ∙ append_assoc (or_nil (lookup k groups)) (p ∷ []) (members packets sec)
            ∙ ap (λ x. or_nil (lookup x groups) ++ p ∷ members packets sec) (text_eq_sound k sec h)
            ∙ ap (λ ms. or_nil (lookup sec groups) ++ ms)
                (sym (if_true (text_eq k sec) (p ∷ members packets sec) (members packets sec) h))
        | inr h ↦
            ap (λ o. or_nil o ++ members packets sec) (lookup-insert-miss k sec v groups h)
            ∙ ap (λ ms. or_nil (lookup sec groups) ++ ms)
                (sym (if_false (text_eq k sec) (p ∷ members packets sec) (members packets sec) h))
      ]

  Shows-part :
      (query sec : Text) (packets : List (ContextPacket F))
      → Shows query s.output_prompt sec (contents packets) (part s query sec packets)
  Shows-part query sec packets =
      let P = Shows query s.output_prompt sec (contents packets) in
      if_elim P (text_eq sec section_task) _ _
        (λ h.
          subst
            (λ sec.
              Shows query s.output_prompt sec (contents packets) (format_section sec query ∷ []))
            (sym (text_eq_sound sec section_task h)) (task (contents packets)))
        (λ h.
          if_elim P (text_eq sec section_output) _ _
            (λ o.
              subst
                (λ sec.
                  Shows query s.output_prompt sec (contents packets)
                    (format_section sec s.output_prompt ∷ []))
                (sym (text_eq_sound sec section_output o)) (output (contents packets)))
            (λ o.
              Shows-items_part query s.output_prompt sec packets (text_eq-false sec section_task h)
                (text_eq-false sec section_output o)))

  AllShown-parts_of :
      (packets : List (ContextPacket F)) (query : Text) (secs : List Text)
      → AllShown query s.output_prompt
          (λ sec. contents (members packets sec))
          secs
          (parts_of s query (group_packets s [] packets) secs)
  unfolding parts_of lookup
  AllShown-parts_of packets query [] = done
  AllShown-parts_of packets query (sec ∷ secs) =
      next sec secs (part s query sec (or_nil (lookup sec (group_packets s [] packets))))
        (parts_of s query (group_packets s [] packets) secs)
        (subst
          (λ items.
            Shows query s.output_prompt sec (contents (members packets sec))
              (part s query sec items))
          (sym (lookup-group_packets sec [] packets)) (Shows-part query sec (members packets sec)))
        (AllShown-parts_of packets query secs)

  -- The text is that of the sections in their order, with an empty line between each two. Task shows
  -- the query and Output the closing prompt; any other section shows the contents of the packets that
  -- the classifier puts there, all of them in their order, with a rule between the packets of Evidence
  -- and a new line between those of the others, and a section without packets is left out. Each
  -- starts with its name in brackets.
  pub structure_lem :
      (packets : List (ContextPacket F)) (query : Text)
      → (parts : List Text) × Joined (codes "\n\n") parts (structure s packets query)
        × AllShown query s.output_prompt
            (λ sec. map (λ p. p.content) (members packets sec))
            s.section_order
            parts
  unfolding structure
  structure_lem packets query = (
    parts_of s query (group_packets s [] packets) s.section_order,
    Joined-join (codes "\n\n") (parts_of s query (group_packets s [] packets) s.section_order),
    AllShown-parts_of packets query s.section_order,
  )
