-- ===== src/Ctx/Structurer.antt =====
-- ctx/gssc/structurer.go: the text of the sections. A section's name is a text.
pub mod Sections
use awesome_agent.Prelude.{
  ℕ, Bool, true, false, Option, none, some, List, [], ◌∷◌, ◌++◌, Text, Dict, codes, text_eq, lookup,
  insert, if◌then◌else◌,
}
use awesome_agent.Go.Strings.{join, newline}
use awesome_agent.Ctx.Packet.{
  ContextSource, memory, rag, system_instructions, history, custom, note, ContextPacket,
  is_semantic,
}

abbrev pub section_role_policies : Text
section_role_policies = codes "Role & Policies"

abbrev pub section_task : Text
section_task = codes "Task"

abbrev pub section_evidence : Text
section_evidence = codes "Evidence"

abbrev pub section_context : Text
section_context = codes "Context"

abbrev pub section_output : Text
section_output = codes "Output"

abbrev pub default_section_order : List Text
default_section_order =
    section_role_policies ∷ section_task ∷ section_evidence ∷ section_context ∷ section_output ∷ []

abbrev section_of : ContextSource → Bool → Text
section_of system_instructions semantic = section_role_policies
section_of rag semantic = section_evidence
section_of note semantic = section_evidence
section_of memory semantic = if semantic then section_evidence else section_context
section_of history semantic = section_context
section_of custom semantic = section_context

module _ {F : Type 0} where
  unfoldable pub default_classifier : ContextPacket F → Text
  unfolding is_semantic
  default_classifier p = section_of p.source (is_semantic p.metadata)

pub record StructurerImpl (F : Type 0) : Type 0 where
  pub classifier : ContextPacket F → Text
  pub section_order : List Text
  pub output_prompt : Text

unfoldable pub new_structurer : {F : Type 0} → StructurerImpl F
unfolding default_classifier
new_structurer = record {
  classifier = default_classifier;
  section_order = default_section_order;
  output_prompt =
      codes
        "Please provide an accurate and well-founded answer based on the information provided above.";
}

abbrev pub format_section : Text → Text → Text
format_section sec content = codes "[" ++ (sec ++ (codes "]\n" ++ content))

abbrev pub separator : Text → Text
separator sec = if text_eq sec section_evidence then codes "\n---\n" else newline ∷ []

module _ {F : Type 0} where
  -- the contents, with the separator before each but the first
  unfoldable pub items_from : Text → Bool → List (ContextPacket F) → Text
  unfolding text_eq
  items_from sec first [] = []
  items_from sec first (p ∷ packets) =
      (if first then [] else separator sec) ++ (p.content ++ items_from sec false packets)

  unfoldable pub format_section_items : Text → List (ContextPacket F) → Text
  unfolding items_from
  format_section_items sec items = format_section sec (items_from sec true items)

  abbrev pub or_nil : Option (List (ContextPacket F)) → List (ContextPacket F)
  or_nil none = []
  or_nil (some packets) = packets

  abbrev pub items_part : Text → List (ContextPacket F) → List Text
  items_part sec [] = []
  items_part sec (p ∷ packets) = format_section_items sec (p ∷ packets) ∷ []

module _ {F : Type 0} (s : StructurerImpl F) where
  -- groups[sec] = append(groups[sec], p) for each packet
  unfoldable pub group_packets :
      Dict (List (ContextPacket F)) → List (ContextPacket F) → Dict (List (ContextPacket F))
  unfolding lookup insert
  group_packets groups [] = groups
  group_packets groups (p ∷ packets) =
      let sec = s.classifier p in
      group_packets (insert sec (or_nil (lookup sec groups) ++ p ∷ []) groups) packets

  -- what a section adds to the parts, given the packets of its group
  abbrev pub part : Text → Text → List (ContextPacket F) → List Text
  part query sec items =
      if text_eq sec section_task
      then format_section sec query ∷ []
      else if text_eq sec section_output
      then format_section sec s.output_prompt ∷ []
      else items_part sec items

  unfoldable pub parts_of : Text → Dict (List (ContextPacket F)) → List Text → List Text
  unfolding lookup text_eq
  parts_of query groups [] = []
  parts_of query groups (sec ∷ secs) =
      part query sec (or_nil (lookup sec groups)) ++ parts_of query groups secs

  unfoldable pub structure : List (ContextPacket F) → Text → Text
  unfolding group_packets parts_of
  structure packets query =
      join (newline ∷ newline ∷ []) (parts_of query (group_packets [] packets) s.section_order)
