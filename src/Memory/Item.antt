-- ===== src/Memory/Item.antt =====
-- memory/types/memory.go. Times are nanoseconds, a float64 is a value of a type `F`, and a nil map is `none`.
use awesome_agent.Prelude.{ℕ, ℤ, Option, List, Text, Dict}

-- `untyped` is the empty string
pub data MemoryType : Type 0 where
  working : MemoryType
  episodic : MemoryType
  semantic : MemoryType
  perceptual : MemoryType
  untyped : MemoryType

-- Filter, MinScore and MinImportance of the options are not read here.
pub record SearchOptions : Type 0 where
  pub limit : ℤ

pub record MemoryItem (F : Type 0) : Type 0 where
  pub id : Text
  pub session_id : Text
  pub memory_type : MemoryType
  pub content : Text
  pub created_at : Option ℕ
  pub importance : F
  pub metadata : Option (Dict Text)
  pub source_ids : List Text
  pub compressed_from : MemoryType
  pub status : Text

pub record MemoryStatus : Type 0 where
  pub memory_type : MemoryType
  pub count : ℕ
  pub oldest_item : Option ℕ
  pub newest_item : Option ℕ
