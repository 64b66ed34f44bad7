-- ===== src/Agents/React.antt =====
-- agents/react.go: the loop over the replies of a language model and the tools that it calls.
pub mod Conversation
pub mod Trace
pub mod Liveness
pub mod Tests
use awesome_agent.Prelude.{
  ℕ, zero, suc, ℤ, pos, negsuc, Bool, true, false, ◌&&◌, Option, none, some, List, [], ◌∷◌, ◌++◌,
  map, Text, Dict, codes, is_empty, insert, Result, ok, err, if◌then◌else◌,
}
use awesome_agent.Core.Message.{
  ToolCall, Content, string, parts, nil, printed, ContentPart, Message,
}
use awesome_agent.Core.Agent.{
  FinishReason, stop, cut_off, tool_calls, content_filter, add_message, add_messages,
}
use awesome_agent.Tools.Tool.{Value, Params, ToolParameter}
use awesome_agent.Tools.Registry.{ToolRegistry}
use awesome_agent.Tools.Executor.{Floats, ParamError, execute}

-- An executor is its registry. Name, Config and the context builder do not change and are left out.
pub record ReActAgent (F W : Type 0) : Type 0 where
  pub system_prompt : Text
  pub history : List Message
  pub tool_registry : Option (ToolRegistry F W)
  pub executor : Option (Option (ToolRegistry F W))
  pub max_steps : ℤ
  pub session_id : Text

-- the errors of a run; the last is a panic
pub data AgentError : Type 0 where
  steps_not_positive : AgentError
  model_error : Text → AgentError
  filtered : AgentError
  executor_error : Text → AgentError
  nil_executor : AgentError

-- an answer in plain words: a text, or what %v prints
unfoldable pub extract_string : (List ContentPart → Text) → Content → Text
extract_string show_parts (string s) = s
extract_string show_parts (parts ps) = show_parts ps
extract_string show_parts nil = codes "<nil>"
extract_string show_parts (printed s) = s

abbrev pub user_message : Text → Message
user_message input = record {
  role = codes "user";
  content = string input;
  name = [];
  tool_calls = [];
  tool_call_id = [];
}

abbrev pub system_message : Text → Message
system_message content = record {
  role = codes "system";
  content = string content;
  name = [];
  tool_calls = [];
  tool_call_id = [];
}

abbrev pub unable : Text
unable = codes "unable to complete the task within the maximum steps"

abbrev pub is_tool_calls : FinishReason → Bool
is_tool_calls tool_calls = true
is_tool_calls _ = false

abbrev pub is_filter : FinishReason → Bool
is_filter content_filter = true
is_filter _ = false

abbrev pub has_calls : List ToolCall → Bool
has_calls [] = false
has_calls (c ∷ cs) = true

-- what surrounds the loop: the context builder on the query, the history and the system prompt, the
-- language model on the messages and the tools, what %v prints, json.Unmarshal, with no parameters
-- for null, and json.Marshal
pub record Surroundings (F W : Type 0) : Type 0 where
  pub build : Text → List Message → Text → W → Text × W
  pub chat_complete :
      List Message → Option (ToolRegistry F W) → W → Result Text (Message × FinishReason) × W
  pub show_parts : List ContentPart → Text
  pub unmarshal : Text → Result Text (Params F)
  pub marshal : Params F → Text
  pub floats : Floats F
  pub order : Dict (ToolParameter F) → Dict (ToolParameter F)
  pub quote_text : Text → Text
  pub show_error : ParamError → Text

module _ {F W : Type 0} (around : Surroundings F W) where
  -- The error of json.Unmarshal is dropped: what cannot be read is no arguments.
  abbrev pub parsed_arguments : Text → Params F
  parsed_arguments [] = []
  parsed_arguments (c ∷ s) = elim (around.unmarshal (c ∷ s)) [ err e ↦ [] | ok params ↦ params ]

  abbrev pub with_session : Text → ToolCall → ToolCall
  with_session session_id call = record call {
    arguments =
        around.marshal
          (insert (codes "_session_id") (Value.text session_id) (parsed_arguments call.arguments));
  }

  unfoldable pub inject_session_id : Text → List ToolCall → List ToolCall
  unfolding insert
  inject_session_id session_id calls =
      if is_empty session_id then calls else map (with_session session_id) calls

  unfoldable pub build_messages : ReActAgent F W → Text → W → List Message × W
  build_messages agent query w =
      let (content, w') = around.build query agent.history agent.system_prompt w in
      (system_message content ∷ user_message query ∷ [], w')

  abbrev pub record_message : Message → ReActAgent F W → ReActAgent F W
  record_message m agent = record agent { history = add_message m agent.history }

  abbrev pub record_messages : List Message → ReActAgent F W → ReActAgent F W
  record_messages ms agent = record agent { history = add_messages ms agent.history }

  -- the executor on the calls; a nil executor panics
  abbrev pub run_calls :
      Option (Option (ToolRegistry F W)) → List ToolCall → W → Result AgentError (List Message) × W
  run_calls none calls w = (err nil_executor, w)
  run_calls (some registry) calls w =
      let (r, w') =
        execute around.floats around.order around.unmarshal around.quote_text around.show_error
          registry calls w in
      (elim r [ err e ↦ err (executor_error e) | ok ms ↦ ok ms ], w')

  abbrev pub Outcome : Type 0
  Outcome = Result AgentError Text × ReActAgent F W × W

  -- the rest of a step, after the tools
  abbrev pub after_calls :
      (ReActAgent F W → W → Outcome)
      → ReActAgent F W
      → Result AgentError (List Message) × W
      → Outcome
  after_calls continue agent (err e, w) = (err e, agent, w)
  after_calls continue agent (ok answers, w) = continue (record_messages answers agent) w

  abbrev pub act_on_calls : (ReActAgent F W → W → Outcome) → ReActAgent F W → Message → W → Outcome
  act_on_calls continue agent reply w =
      let calls = inject_session_id agent.session_id reply.tool_calls in
      after_calls continue (record_message (record reply { tool_calls = calls }) agent)
        (run_calls agent.executor calls w)

  -- the rest of a step, after the model has replied
  abbrev pub after_reply :
      (ReActAgent F W → W → Outcome)
      → ReActAgent F W
      → Result Text (Message × FinishReason) × W
      → Outcome
  after_reply continue agent (err e, w) = (err (model_error e), agent, w)
  after_reply continue agent (ok (reply, reason), w) =
      let acted = act_on_calls continue agent reply w in
      if is_filter reason
      then (err filtered, agent, w)
      else if is_tool_calls reason && has_calls reply.tool_calls
      then acted
      else (ok (extract_string around.show_parts reply.content), record_message reply agent, w)

  -- the loop, with the steps that are left
  unfoldable pub run_steps : ℕ → Text → ReActAgent F W → W → Outcome
  unfolding build_messages inject_session_id execute extract_string add_message add_messages
  run_steps zero input agent w = (ok unable, agent, w)
  run_steps (suc n) input agent w =
      let (messages, w') = build_messages agent input w in
      after_reply (run_steps n input) agent (around.chat_complete messages agent.tool_registry w')

  abbrev pub run_positive : ℤ → Text → ReActAgent F W → W → Outcome
  run_positive (negsuc n) input agent w = (err steps_not_positive, agent, w)
  run_positive (pos zero) input agent w = (err steps_not_positive, agent, w)
  run_positive (pos (suc n)) input agent w =
      run_steps (suc n) input (record_message (user_message input) agent) w

  -- Run
  unfoldable pub run_agent : Text → ReActAgent F W → W → Outcome
  unfolding run_steps
  run_agent input agent w = run_positive agent.max_steps input agent w

-- NewReActAgent: the executor is the registry's, if there is one
unfoldable pub executor_of :
    {F W : Type 0} → Option (ToolRegistry F W) → Option (Option (ToolRegistry F W))
executor_of none = none
executor_of (some registry) = some (some registry)
