-- ===== src/Agents/React/Conversation.antt =====
-- A conversation of an agent with the model and its tools, round by round, and how it is written in the
-- history.
use awesome_agent.Prelude.{
  ℕ, zero, suc, ◌≤◌, ◌≡◌, refl, sym, ◌∙◌, true, ◌&&◌, Option, none, some, List, [], ◌∷◌, ◌++◌, Text,
  Result, ok, err, length, take, length-take, ltb, arith, ◌<◌, codes, Bool-cases, inl, inr, false,
  take-append-drop, drop, if_true, if_false, subst,
}
use awesome_agent.Core.Message.{
  ToolCall, ContentPart, Content, string, parts, nil, printed, Message,
}
use awesome_agent.Core.Agent.{
  FinishReason, stop, cut_off, tool_calls, content_filter, add_message, add_messages,
}
use awesome_agent.Tools.Registry.{ToolRegistry}
use awesome_agent.Tools.Executor.{execute_all}
use awesome_agent.Tools.Executor.Laws.{AllAnswered}
use awesome_agent.Agents.React.{
  ReActAgent, AgentError, model_error, filtered, executor_error, nil_executor, Surroundings,
  extract_string, user_message, system_message, unable, is_tool_calls, is_filter, has_calls,
}

-- The history after so many more messages: a message is put at the end, and a history of more than
-- 1024 is first cut to its first 512.
pub data Added : List Message → List Message → List Message → Type 0 where
  done : (history : List Message) → Added history [] history
  kept :
      (history ms result : List Message) (m : Message)
      → length history ≤ 1024
      → Added (history ++ m ∷ []) ms result
      → Added history (m ∷ ms) result
  cut :
      (history first lost ms result : List Message) (m : Message)
      → 1024 < length history
      → history ≡ first ++ lost
      → length first ≡ 512
      → Added (first ++ m ∷ []) ms result
      → Added history (m ∷ ms) result

-- what an answer says: its text, or what %v prints
pub data Says (show_parts : List ContentPart → Text) : Content → Text → Type 0 where
  plain : (s : Text) → Says show_parts (string s) s
  of_parts : (ps : List ContentPart) → Says show_parts (parts ps) (show_parts ps)
  of_nil : Says show_parts nil (codes "<nil>")
  of_value : (s : Text) → Says show_parts (printed s) s

-- the same calls, but for the arguments if there is a session
abbrev pub SameCalls : Text → List ToolCall → List ToolCall → Type 0
SameCalls session_id [] [] = Unit
SameCalls session_id [] (c ∷ cs) = ⊥
SameCalls session_id (c ∷ cs) [] = ⊥
SameCalls session_id (c ∷ cs) (d ∷ ds) =
    (d.id ≡ c.id)
    × (d.name ≡ c.name)
    × (session_id ≡ [] → d.arguments ≡ c.arguments)
    × SameCalls session_id cs ds

-- the reply asks for tools: for this reason, and with calls
abbrev pub Calls : Message → FinishReason → Type 0
Calls reply reason = (reason ≡ tool_calls) × ¬ (reply.tool_calls ≡ [])

-- why the tools were not run: there is no executor, or it has no registry
pub data NotExecuted {F W : Type 0} : Option (Option (ToolRegistry F W)) → AgentError → Type 0 where
  panicked : NotExecuted none nil_executor
  refused : NotExecuted (some none) (executor_error (codes "ToolRegistry has not been initialized"))

-- the reply of the model to the built context and the query
abbrev pub asked :
    {F W : Type 0}
    → Surroundings F W
    → ReActAgent F W
    → Text
    → List Message
    → W
    → Result Text (Message × FinishReason) × W
asked around agent input history w =
    let (content, w') = around.build input history agent.system_prompt w in
    around.chat_complete (system_message content ∷ user_message input ∷ []) agent.tool_registry w'

-- the answers of the tools of a registry to the calls
abbrev pub answered_by :
    {F W : Type 0} → Surroundings F W → ToolRegistry F W → List ToolCall → W → List Message × W
answered_by around registry calls w =
    execute_all around.floats around.order around.unmarshal around.quote_text around.show_error
      registry calls w

-- The conversation of an agent with so many steps left, from a history and a world: its result, and
-- the history and the world that it leaves.
pub data Trace {F W : Type 0} (around : Surroundings F W) (agent : ReActAgent F W) (input : Text)
    : ℕ → List Message → W → Result AgentError Text → List Message → W → Type 0 where
  exhausted :
      (history : List Message) (w : W)
      → Trace around agent input zero history w (ok unable) history w
  chat_failed :
      (n : ℕ) (history : List Message) (w w' : W) (e : Text)
      → asked around agent input history w ≡ (err e, w')
      → Trace around agent input (suc n) history w (err (model_error e)) history w'
  chat_filtered :
      (n : ℕ) (history : List Message) (w w' : W) (reply : Message)
      → asked around agent input history w ≡ (ok (reply, content_filter), w')
      → Trace around agent input (suc n) history w (err filtered) history w'
  answered :
      (n : ℕ) (history history' : List Message) (w w' : W) (reply : Message) (reason : FinishReason)
      (text : Text)
      → asked around agent input history w ≡ (ok (reply, reason), w')
      → ¬ (reason ≡ content_filter)
      → ¬ Calls reply reason
      → Says around.show_parts reply.content text
      → Added history (reply ∷ []) history'
      → Trace around agent input (suc n) history w (ok text) history' w'
  not_executed :
      (n : ℕ) (history history' : List Message) (w w' : W) (reply : Message) (reason : FinishReason)
      (calls : List ToolCall) (e : AgentError)
      → asked around agent input history w ≡ (ok (reply, reason), w')
      → Calls reply reason
      → SameCalls agent.session_id reply.tool_calls calls
      → NotExecuted agent.executor e
      → Added history (record reply { tool_calls = calls } ∷ []) history'
      → Trace around agent input (suc n) history w (err e) history' w'
  round :
      (n : ℕ) (history h1 h2 : List Message) (w w1 w2 w3 : W) (reply : Message)
      (reason : FinishReason) (calls : List ToolCall) (registry : ToolRegistry F W)
      (answers : List Message) (r : Result AgentError Text)
      → asked around agent input history w ≡ (ok (reply, reason), w1)
      → Calls reply reason
      → SameCalls agent.session_id reply.tool_calls calls
      → agent.executor ≡ some (some registry)
      → answered_by around registry calls w1 ≡ (answers, w2)
      → AllAnswered reply.tool_calls answers
      → Added history (record reply { tool_calls = calls } ∷ answers) h1
      → Trace around agent input n h1 w2 r h2 w3
      → Trace around agent input (suc n) history w r h2 w3

below : (a b : ℕ) → ltb a b ≡ true → a < b
below a b h = ground arith

not_below : (a b : ℕ) → ltb a b ≡ false → b ≤ a
not_below a b h = ground arith

Added-add_message :
    (m : Message) (ms history result : List Message)
    → Added (add_message m history) ms result
    → Added history (m ∷ ms) result
unfolding add_message
Added-add_message m ms history result rest = elim (Bool-cases (ltb 1024 (length history))) [
  | inl h ↦
      let long = below 1024 (length history) h in
      cut history (take 512 history) (drop 512 history) ms result m long
        (sym (take-append-drop 512 history)) (omega (arith, long, length-take 512 history))
        (subst (λ kept. Added (kept ++ m ∷ []) ms result) (if_true _ _ _ h) rest)
  | inr h ↦
      kept history ms result m (not_below 1024 (length history) h)
        (subst (λ kept. Added (kept ++ m ∷ []) ms result) (if_false _ _ _ h) rest)
]

pub Added-add_messages : (ms history : List Message) → Added history ms (add_messages ms history)
unfolding add_messages
Added-add_messages [] history = done history
Added-add_messages (m ∷ ms) history =
    Added-add_message m ms history _ (Added-add_messages ms (add_message m history))

pub Says-extract_string :
    (show_parts : List ContentPart → Text) (content : Content)
    → Says show_parts content (extract_string show_parts content)
unfolding extract_string
Says-extract_string show_parts (string s) = plain s
Says-extract_string show_parts (parts ps) = of_parts ps
Says-extract_string show_parts nil = of_nil
Says-extract_string show_parts (printed s) = of_value s

pub SameCalls-refl : (session_id : Text) (calls : List ToolCall) → SameCalls session_id calls calls
SameCalls-refl session_id [] = tt
SameCalls-refl session_id (c ∷ cs) = (refl, refl, λ h. refl, SameCalls-refl session_id cs)

pub AllAnswered-SameCalls :
    (session_id : Text) (calls sent : List ToolCall) (answers : List Message)
    → SameCalls session_id calls sent
    → AllAnswered sent answers
    → AllAnswered calls answers
AllAnswered-SameCalls session_id [] [] [] same h = tt
AllAnswered-SameCalls session_id [] [] (m ∷ ms) same h = h
AllAnswered-SameCalls session_id [] (d ∷ ds) ms same h = absurd same
AllAnswered-SameCalls session_id (c ∷ cs) [] ms same h = absurd same
AllAnswered-SameCalls session_id (c ∷ cs) (d ∷ ds) [] same h = h
AllAnswered-SameCalls session_id (c ∷ cs) (d ∷ ds) (m ∷ ms) (i, o, a, same) ((id, role), h) =
    ((id ∙ i, role), AllAnswered-SameCalls session_id cs ds ms same h)

pub unfiltered : (reason : FinishReason) → is_filter reason ≡ false → ¬ (reason ≡ content_filter)
unfiltered reason h e = cc

pub filtered_only : (reason : FinishReason) → is_filter reason ≡ true → reason ≡ content_filter
filtered_only content_filter h = refl
filtered_only stop h = cc
filtered_only cut_off h = cc
filtered_only tool_calls h = cc

pub Calls-calling :
    (reply : Message) (reason : FinishReason) (calls : List ToolCall)
    → reply.tool_calls ≡ calls
    → (is_tool_calls reason && has_calls calls) ≡ true
    → Calls reply reason
Calls-calling reply tool_calls (c ∷ cs) e h = (refl, λ none_left. cc)
Calls-calling reply tool_calls [] e h = cc
Calls-calling reply stop calls e h = cc
Calls-calling reply cut_off calls e h = cc
Calls-calling reply content_filter calls e h = cc

no_calls :
    (reason : FinishReason) (calls : List ToolCall)
    → (is_tool_calls reason && has_calls calls) ≡ false
    → reason ≡ tool_calls
    → calls ≡ []
no_calls reason [] h e = refl
no_calls tool_calls (c ∷ cs) h e = cc
no_calls stop (c ∷ cs) h e = cc
no_calls cut_off (c ∷ cs) h e = cc
no_calls content_filter (c ∷ cs) h e = cc

pub quiet :
    (reply : Message) (reason : FinishReason)
    → (is_tool_calls reason && has_calls reply.tool_calls) ≡ false
    → ¬ Calls reply reason
quiet reply reason h (e, some_left) = some_left (no_calls reason reply.tool_calls h e)
