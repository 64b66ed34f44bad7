-- ===== src/Ctx/Gatherer.antt =====
-- ctx/gssc/gatherer.go, utils.go and builder.go: the packets from all sources, and the whole context.
-- A text is a list of code points, and the cuts of a message (Core/Message) count these here.
pub mod Sources
pub mod Tests
use awesome_agent.Prelude.{
  ℕ, zero, suc, ◌+◌, ◌-◌, ◌*◌, ◌/◌, min, Bool, true, false, ◌&&◌, ◌||◌, Option, none, some, List,
  [], ◌∷◌, ◌++◌, map, Text, Dict, codes, contains, text_eq, lookup, insert, length, take, drop, leb,
  Result, ok, err, if◌then◌else◌,
}
use awesome_agent.Core.Message.{Message, show_message}
use awesome_agent.Memory.Item.{MemoryItem, MemoryType}
use awesome_agent.Ctx.Packet.{
  ContextPacket, ContextSource, memory, rag, system_instructions, history, note, MetaValue,
}
use awesome_agent.Ctx.Selector.{SelectorImpl, Floats, select}
use awesome_agent.Ctx.Structurer.{StructurerImpl, structure}

abbrev pub in_range : ℕ → ℕ → ℕ → Bool
in_range lo hi r = leb lo r && leb r hi

unfoldable pub is_cjk : ℕ → Bool
is_cjk r =
    in_range 0x4E00 0x9FFF r
    || in_range 0x3400 0x4DBF r
    || in_range 0x20000 0x2A6DF r
    || in_range 0x2A700 0x2B73F r
    || in_range 0x2B740 0x2B81F r
    || in_range 0x2B820 0x2CEAF r
    || in_range 0xF900 0xFAFF r
    || in_range 0x2F800 0x2FA1F r

-- the count in quarters of a token, which a float64 holds exactly
unfoldable pub quarters : Text → ℕ
unfolding is_cjk
quarters [] = 0
quarters (r ∷ text) = let rest = quarters text in if is_cjk r then 8 + rest else 1 + rest

unfoldable pub estimate_tokens : Text → ℕ
unfolding quarters
estimate_tokens text = quarters text / 4

-- what the search of the documents returns
pub record RagItem (F : Type 0) : Type 0 where
  pub content : Text
  pub created_at : Option ℕ
  pub score : F

pub record NoteMetadata : Type 0 where
  pub id : Text
  pub title : Text
  pub type : Text
  pub updated_at : Text

-- the notes: the first five blockers, a search for five notes, both as they are read from their JSON,
-- and the content of a note
pub record Notes : Type 0 where
  pub list_blockers : Result Text (List NoteMetadata)
  pub search_notes : Text → Result Text (List NoteMetadata)
  pub content_of : NoteMetadata → Result Text Text

-- a gatherer with the tools that are not nil; the search of the memory finds its manager first
pub record GathererImpl (F : Type 0) : Type 0 where
  pub search_memory : Option (Text → Result Text (List (MemoryItem F)))
  pub search_rag : Option (Text → Result Text (List (RagItem F)))
  pub notes : Option Notes

-- the constants and ParseFloat; the clock, the zero time and time.Parse; the text of a MemoryType; the
-- order in which the goroutines on the notes end
pub record Surroundings (F : Type 0) : Type 0 where
  pub one : F
  pub six_tenths : F
  pub blocker_score : F
  pub action_score : F
  pub note_score : F
  pub parse_float : Text → Option F
  pub now : ℕ
  pub zero_time : ℕ
  pub parse_time : Text → Option ℕ
  pub show_type : MemoryType → Text
  pub order : List NoteMetadata → List NoteMetadata

-- the notes that were not seen, and all that are seen
unfoldable pub new_notes : List Text → List NoteMetadata → List NoteMetadata × List Text
unfolding contains
new_notes seen [] = ([], seen)
new_notes seen (n ∷ notes) =
    let again = new_notes seen notes in
    let (more, seen') = new_notes (n.id ∷ seen) notes in
    if contains seen n.id then again else (n ∷ more, seen')

abbrev pub packet_of : {F : Type 0} → ContextSource → Text → ℕ → F → ContextPacket F
packet_of source content timestamp score = record {
  content = content;
  timestamp = timestamp;
  token_count = estimate_tokens content;
  relevance_score = score;
  source = source;
  metadata = [];
}

module _ {F : Type 0} (around : Surroundings F) where
  abbrev pub or_fallback : F → Option F → F
  or_fallback fallback none = fallback
  or_fallback fallback (some score) = score

  unfoldable pub parse_score : Text → F → F
  parse_score [] fallback = fallback
  parse_score (c ∷ raw) fallback = or_fallback fallback (around.parse_float (c ∷ raw))

  abbrev pub item_time : Option ℕ → ℕ
  item_time none = around.zero_time
  item_time (some t) = t

  abbrev pub or_empty : {V : Type 0} → Option (Dict V) → Dict V
  or_empty none = []
  or_empty (some m) = m

  abbrev pub text_or_empty : Option Text → Text
  text_or_empty none = []
  text_or_empty (some s) = s

  abbrev pub copy_map : Dict Text → Dict MetaValue
  copy_map m = map (λ entry. (entry.0, MetaValue.text entry.1)) m

  abbrev pub memory_packet : MemoryItem F → ContextPacket F
  memory_packet item =
      let raw = text_or_empty (lookup (codes "score") (or_empty item.metadata)) in
      record (packet_of memory item.content (item_time item.created_at)
        (parse_score raw item.importance)) {
          metadata =
              insert (codes "memory_type") (MetaValue.text (around.show_type item.memory_type))
                (copy_map (or_empty item.metadata));
        }

  abbrev pub ok_or_empty : {A : Type 0} → Result Text (List A) → List A
  ok_or_empty (ok xs) = xs
  ok_or_empty (err e) = []

  unfoldable pub collect_memory :
      Text → Option (Text → Result Text (List (MemoryItem F))) → List (ContextPacket F)
  unfolding estimate_tokens parse_score lookup insert
  collect_memory query none = []
  collect_memory query (some search) = map memory_packet (ok_or_empty (search query))

  unfoldable pub collect_rag :
      Text → Option (Text → Result Text (List (RagItem F))) → List (ContextPacket F)
  unfolding estimate_tokens
  collect_rag query none = []
  collect_rag query (some search) =
      map (λ (item : RagItem F). packet_of rag item.content (item_time item.created_at) item.score)
        (ok_or_empty (search query))

  -- the messages with their times
  unfoldable pub collect_history : List (Message × ℕ) → List (ContextPacket F)
  unfolding estimate_tokens show_message
  collect_history messages =
      let limit = min (length messages) 32 in
      map (λ entry. packet_of history (show_message entry.0) entry.1 around.six_tenths)
        (drop (length messages - limit) messages)

  unfoldable pub note_relevance_score : Text → F
  unfolding text_eq
  note_relevance_score type =
      if text_eq type (codes "blocker")
      then around.blocker_score
      else if text_eq type (codes "action")
      then around.action_score
      else around.note_score

  abbrev pub note_text : NoteMetadata → Text → Text
  note_text n content =
      codes "[Note: " ++ (n.title ++ (codes "] (" ++ (n.type ++ (codes ")\n" ++ content))))

  abbrev pub store_note : NoteMetadata → Result Text Text → Dict Text → Dict Text
  store_note n (err e) contents = contents
  store_note n (ok content) contents = insert n.id (note_text n content) contents

  -- the goroutines, one for each note
  unfoldable pub get_note_contents : Notes → List NoteMetadata → Dict Text → Dict Text
  unfolding insert
  get_note_contents tool [] contents = contents
  get_note_contents tool (n ∷ ns) contents =
      get_note_contents tool ns (store_note n (tool.content_of n) contents)

  abbrev pub or_now : Option ℕ → ℕ
  or_now none = around.now
  or_now (some t) = t

  abbrev pub note_packet : NoteMetadata → Option Text → List (ContextPacket F)
  note_packet n none = []
  note_packet n (some content) =
      packet_of note content (or_now (around.parse_time n.updated_at)) (note_relevance_score n.type)
      ∷ []

  unfoldable pub note_packets : Dict Text → List NoteMetadata → List (ContextPacket F)
  unfolding lookup estimate_tokens note_relevance_score
  note_packets contents [] = []
  note_packets contents (n ∷ ns) = note_packet n (lookup n.id contents) ++ note_packets contents ns

  -- blockers first, five notes at most
  abbrev pub recalled : List NoteMetadata → List NoteMetadata → List NoteMetadata
  recalled blockers found =
      let (first, seen) = new_notes [] blockers in take 5 (first ++ (new_notes seen found).0)

  abbrev pub packets_of_notes :
      Notes
      → Result Text (List NoteMetadata)
      → Result Text (List NoteMetadata)
      → List (ContextPacket F)
  packets_of_notes tool (err e) found = []
  packets_of_notes tool (ok blockers) (err e) = []
  packets_of_notes tool (ok blockers) (ok found) =
      let notes = recalled blockers found in
      note_packets (get_note_contents tool (around.order notes) []) notes

  unfoldable pub collect_notes : Text → Option Notes → List (ContextPacket F)
  unfolding new_notes get_note_contents note_packets
  collect_notes query none = []
  collect_notes query (some tool) =
      packets_of_notes tool tool.list_blockers (tool.search_notes query)

  abbrev pub system_packet : Text → List (ContextPacket F)
  system_packet [] = []
  system_packet (c ∷ s) = packet_of system_instructions (c ∷ s) around.now around.one ∷ []

  unfoldable pub gather :
      GathererImpl F
      → Text
      → List (Message × ℕ)
      → Text
      → List (ContextPacket F)
      → List (ContextPacket F)
  unfolding estimate_tokens collect_memory collect_rag collect_history collect_notes
  gather g query messages instructions custom =
      system_packet instructions
      ++ (collect_memory query g.search_memory
          ++ (collect_rag query g.search_rag
              ++ (collect_history messages ++ (collect_notes query g.notes ++ custom))))

  -- builder.go: `budget` is the maximum of tokens without the reserve
  unfoldable pub build_context :
      Floats F
      → (List (ContextPacket F × F) → List (ContextPacket F × F))
      → SelectorImpl F
      → StructurerImpl F
      → ℕ
      → GathererImpl F
      → Text
      → List (Message × ℕ)
      → Text
      → List (ContextPacket F)
      → Text
  unfolding gather select structure
  build_context floats sort selector structurer budget g query messages instructions custom =
      structure structurer
        (select floats sort selector (gather g query messages instructions custom) query budget)
        query
