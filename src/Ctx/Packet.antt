-- ===== src/Ctx/Packet.antt =====
-- ctx/context.go: the packets that a context is made of.
use awesome_agent.Prelude.{ℕ, Bool, false, Option, none, some, Text, Dict, lookup, codes, text_eq}

pub data ContextSource : Type 0 where
  memory : ContextSource
  rag : ContextSource
  system_instructions : ContextSource
  history : ContextSource
  custom : ContextSource
  note : ContextSource

-- a value of the metadata: a string, or of another type
pub data MetaValue : Type 0 where
  text : Text → MetaValue
  other : MetaValue

-- Counts of tokens are natural numbers, `F` stands for float64.
pub record ContextPacket (F : Type 0) : Type 0 where
  pub content : Text
  pub timestamp : ℕ
  pub token_count : ℕ
  pub relevance_score : F
  pub source : ContextSource
  pub metadata : Dict MetaValue

abbrev is_text : Text → Option MetaValue → Bool
is_text s none = false
is_text s (some (text t)) = text_eq t s
is_text s (some other) = false

-- the memory_type of the metadata is "semantic"
unfoldable pub is_semantic : Dict MetaValue → Bool
unfolding lookup text_eq
is_semantic metadata = is_text (codes "semantic") (lookup (codes "memory_type") metadata)
