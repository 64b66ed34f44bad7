-- ===== src/Memory/Compressor.antt =====
-- memory/types/compressor.go: Working2EpisodicCompressor. The model's reply is an argument; the
-- prompt it answers (buildPrompt) is left out.
use awesome_agent.Prelude.{
  Bool, ◌||◌, not, Option, none, some, List, [], ◌∷◌, map, Text, codes, text_eq, Result, ok, err,
  ◌>>=◌, if◌then◌else◌,
}
use awesome_agent.Memory.Item.{working, episodic, MemoryItem}

-- the operations on float64 that the code uses
pub record Floats (F : Type 0) : Type 0 where
  pub zero : F
  pub one : F
  pub nine_tenths : F
  pub at_most : F → F → Bool
  pub above : F → F → Bool
  pub times : F → F → F

pub record CompressOutput (F : Type 0) : Type 0 where
  pub summary : Text
  pub content : Text
  pub importance : F
  pub event_type : Text

-- a reply: the reason it ended, and its tool calls as names with their arguments
pub record Reply : Type 0 where
  pub finish_reason : Text
  pub tool_calls : List (Text × Text)

pub data CompressError : Type 0 where
  no_items : CompressError
  llm_call : Text → CompressError
  wrong_finish_reason : Text → CompressError
  no_tool_calls : CompressError
  wrong_function : Text → CompressError
  bad_arguments : CompressError

module _ {F : Type 0} (floats : Floats F) (unmarshal : Text → Option (CompressOutput F)) where
  abbrev pub read_arguments : Option (CompressOutput F) → Result CompressError (CompressOutput F)
  read_arguments none = err bad_arguments
  read_arguments (some output) = ok output

  -- the first tool call counts
  abbrev pub read_calls : List (Text × Text) → Result CompressError (CompressOutput F)
  read_calls [] = err no_tool_calls
  read_calls ((name, arguments) ∷ calls) =
      if text_eq name (codes "compress_memory")
      then read_arguments (unmarshal arguments)
      else err (wrong_function name)

  unfoldable pub call_llm : Result Text Reply → Result CompressError (CompressOutput F)
  unfolding text_eq
  call_llm (err e) = err (llm_call e)
  call_llm (ok reply) =
      if not (text_eq reply.finish_reason (codes "tool_calls"))
      then err (wrong_finish_reason reply.finish_reason)
      else read_calls reply.tool_calls

  abbrev pub max_importance : F → List (MemoryItem F) → F
  max_importance top [] = top
  max_importance top (item ∷ items) =
      max_importance (if floats.above item.importance top then item.importance else top) items

  unfoldable pub build_episodic_item : List (MemoryItem F) → CompressOutput F → MemoryItem F
  build_episodic_item items output =
      let imp = output.importance in
      let derived = floats.times (max_importance floats.zero items) floats.nine_tenths in
      record {
        id = [];
        session_id = [];
        memory_type = episodic;
        content = output.content;
        created_at = none;
        importance =
            if floats.at_most imp floats.zero || floats.above imp floats.one then derived else imp;
        metadata =
            some ((codes "summary", output.summary) ∷ (codes "event_type", output.event_type) ∷ []);
        source_ids = map (λ item. item.id) items;
        compressed_from = working;
        status = codes "active";
      }

  unfoldable pub summarize :
      List (MemoryItem F) → Result Text Reply → Result CompressError (MemoryItem F)
  unfolding call_llm build_episodic_item
  summarize [] reply = err no_items
  summarize (item ∷ items) reply =
      call_llm reply >>= λ output. ok (build_episodic_item (item ∷ items) output)
