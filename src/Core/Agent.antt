-- ===== src/Core/Agent.antt =====
-- core/agent.go: why a reply ended, and the history that every agent keeps.
use awesome_agent.Prelude.{
  List, [], ◌∷◌, ◌++◌, Text, codes, text_eq, length, take, ltb, if◌then◌else◌,
}
use awesome_agent.Core.Message.{Message}

pub data FinishReason : Type 0 where
  stop : FinishReason
  cut_off : FinishReason
  tool_calls : FinishReason
  content_filter : FinishReason

unfoldable pub parse_finish_reason : Text → FinishReason
unfolding text_eq
parse_finish_reason value =
    if text_eq value (codes "stop")
    then stop
    else if text_eq value (codes "length")
    then cut_off
    else if text_eq value (codes "tool_calls")
    then tool_calls
    else if text_eq value (codes "content_filter")
    then content_filter
    else stop

-- AddMessage on the history
unfoldable pub add_message : Message → List Message → List Message
add_message message history =
    (if ltb 1024 (length history) then take 512 history else history) ++ message ∷ []

unfoldable pub add_messages : List Message → List Message → List Message
unfolding add_message
add_messages [] history = history
add_messages (m ∷ ms) history = add_messages ms (add_message m history)
