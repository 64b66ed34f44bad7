-- ===== src/Agents/React/Liveness.antt =====
-- A model that stops calling tools within the limit is heard: the run returns its answer.
use awesome_agent.Prelude.{
  ℕ, zero, suc, ℤ, pos, ◌≤◌, ◌<◌, ◌≡◌, refl, sym, subst, ◌⊎◌, inl, inr, false, ◌&&◌, Option, none,
  some, List, [], ◌∷◌, ◌++◌, Text, Result, ok, err, arith, if_elim,
}
use awesome_agent.Core.Message.{ToolCall, Message}
use awesome_agent.Core.Agent.{FinishReason, content_filter, add_message}
use awesome_agent.Tools.Registry.{ToolRegistry}
use awesome_agent.Tools.Executor.{execute, execute_one, execute_all}
use awesome_agent.Agents.React.Conversation.{Calls, Says, Says-extract_string, unfiltered, quiet}
use awesome_agent.Agents.React.{
  ReActAgent, AgentError, Surroundings, extract_string, user_message, is_tool_calls, is_filter,
  has_calls, inject_session_id, build_messages, record_message, run_calls, after_calls,
  act_on_calls, after_reply, run_steps, run_positive, run_agent,
}

-- The result is what a reply of the model says, given in some world to some messages, that neither
-- was filtered nor calls tools; and that reply is the last message of the history.
pub data Answered {F W : Type 0} (around : Surroundings F W) (tools : Option (ToolRegistry F W))
    : Result AgentError Text × ReActAgent F W × W → Type 0 where
  heard :
      (messages before : List Message) (w last : W) (reply : Message) (reason : FinishReason)
      (text : Text) (agent : ReActAgent F W)
      → around.chat_complete messages tools w ≡ (ok (reply, reason), last)
      → ¬ (reason ≡ content_filter)
      → ¬ Calls reply reason
      → Says around.show_parts reply.content text
      → agent.history ≡ before ++ reply ∷ []
      → Answered around tools (ok text, agent, last)

module _ {F W : Type 0} (around : Surroundings F W) (registry : ToolRegistry F W)
    (rank : W → ℕ) where
  -- the model replies in a world, without the filter, and each time it calls tools the rank falls
  abbrev pub Replies : W → Result Text (Message × FinishReason) × W → Type 0
  Replies w (err e, w') = ⊥
  Replies w (ok (reply, reason), w') =
      (is_filter reason ≡ false)
      × (((is_tool_calls reason && has_calls reply.tool_calls) ≡ false) ⊎ (rank w' < rank w))

  abbrev run_one : ToolCall → W → Message × W
  run_one =
      execute_one around.floats around.order around.unmarshal around.quote_text around.show_error
        registry

  module _ (tools_keep : (call : ToolCall) (w : W) → rank (run_one call w).1 ≤ rank w) where
    rank-execute_all :
        (calls : List ToolCall) (w : W)
        → rank
            (execute_all around.floats around.order around.unmarshal around.quote_text
              around.show_error registry calls w).1
          ≤ rank w
    unfolding execute_all
    rank-execute_all [] w = omega arith
    rank-execute_all (call ∷ calls) w =
        omega (arith, tools_keep call w, rank-execute_all calls (run_one call w).1)

    module _ (tools : Option (ToolRegistry F W)) (n : ℕ)
        (continue : ReActAgent F W → W → Result AgentError Text × ReActAgent F W × W)
        (answers : (agent : ReActAgent F W) (w : W)
          → agent.executor ≡ some (some registry)
          → agent.tool_registry ≡ tools
          → rank w < n
          → Answered around tools (continue agent w)) where
      Answered-act_on_calls :
          (e : Option (Option (ToolRegistry F W))) (calls : List ToolCall) (agent : ReActAgent F W)
          (w : W)
          → e ≡ some (some registry)
          → agent.executor ≡ some (some registry)
          → agent.tool_registry ≡ tools
          → rank w < n
          → Answered around tools (after_calls around continue agent (run_calls around e calls w))
      unfolding execute
      Answered-act_on_calls none calls agent w h k t less = cc
      Answered-act_on_calls (some none) calls agent w h k t less = cc
      Answered-act_on_calls (some (some r)) calls agent w h k t less =
          let same : registry ≡ r = cc in
          subst
            (λ (r : ToolRegistry F W).
              Answered around tools
                (after_calls around continue agent (run_calls around (some (some r)) calls w)))
            same (answers _ _ k t (omega (arith, less, rank-execute_all calls w)))

      Answered-after_reply :
          (agent : ReActAgent F W) (messages : List Message) (v : W)
          (r : Result Text (Message × FinishReason)) (w : W)
          → agent.executor ≡ some (some registry)
          → agent.tool_registry ≡ tools
          → around.chat_complete messages tools v ≡ (r, w)
          → rank v < suc n
          → Replies v (r, w)
          → Answered around tools (after_reply around continue agent (r, w))
      unfolding add_message
      Answered-after_reply agent messages v (err e) w h t asks less replied = absurd replied
      Answered-after_reply agent messages v (ok (reply, reason)) w h t asks less
            (unfiltered_reply, falls) =
          let calling = is_tool_calls reason && has_calls reply.tool_calls in
          if_elim (Answered around tools) (is_filter reason) _ _ (λ c. cc)
            (λ c.
              if_elim (Answered around tools) calling (act_on_calls around continue agent reply w) _
                (λ c. elim falls [
                  | inl none_called ↦ cc
                  | inr below ↦
                      let calls = inject_session_id around agent.session_id reply.tool_calls in
                      Answered-act_on_calls agent.executor calls
                        (record_message around (record reply { tool_calls = calls }) agent) w h h t
                        (omega (arith, less, below))
                ])
                (λ c.
                  heard messages _ v w reply reason (extract_string around.show_parts reply.content)
                    (record_message around reply agent) asks (unfiltered reason unfiltered_reply)
                    (quiet reply reason c) (Says-extract_string around.show_parts reply.content)
                    refl))

    module _
        (builder_keeps : (query : Text) (history : List Message) (prompt : Text) (w : W)
          → rank (around.build query history prompt w).1 ≤ rank w)
        (model_replies : (messages : List Message) (tools : Option (ToolRegistry F W)) (w : W)
          → Replies w (around.chat_complete messages tools w)) where
      Answered-run_steps :
          (n : ℕ) (input : Text) (agent : ReActAgent F W) (w : W)
          → agent.executor ≡ some (some registry)
          → rank w < n
          → Answered around agent.tool_registry (run_steps around n input agent w)
      unfolding run_steps build_messages
      Answered-run_steps zero input agent w h less = absurd (omega (arith, less))
      Answered-run_steps (suc n) input agent w h less =
          let (messages, w') = build_messages around agent input w in
          let replied = around.chat_complete messages agent.tool_registry w' in
          Answered-after_reply agent.tool_registry n (run_steps around n input)
            (λ later v k t below.
              subst (λ tools. Answered around tools (run_steps around n input later v)) t
                (Answered-run_steps n input later v k below))
            agent messages w' replied.0 replied.1 h refl refl
            (omega (arith, less, builder_keeps input agent.history agent.system_prompt w))
            (model_replies messages agent.tool_registry w')

      Answered-run_positive :
          (n : ℕ) (input : Text) (agent : ReActAgent F W) (w : W)
          → agent.executor ≡ some (some registry)
          → rank w < n
          → Answered around agent.tool_registry (run_positive around (pos n) input agent w)
      Answered-run_positive zero input agent w h less = absurd (omega (arith, less))
      Answered-run_positive (suc n) input agent w h less =
          Answered-run_steps (suc n) input (record_message around (user_message input) agent) w h
            less

      -- Assume that in every world the model replies without error or filter, that a measure of the
      -- world falls with each reply that calls tools, that neither the tools nor the context builder
      -- raise it, that it is below the limit on the steps at first, and that the agent's executor has
      -- the registry. Then a run does not stop at the limit: its result is what a reply of the model
      -- says, one that calls no tools and was not filtered, and that reply is the last message of the
      -- history.
      pub run_agent_answers :
          (n : ℕ) (input : Text) (agent : ReActAgent F W) (w : W)
          → agent.max_steps ≡ pos n
          → agent.executor ≡ some (some registry)
          → rank w < n
          → Answered around agent.tool_registry (run_agent around input agent w)
      unfolding run_agent
      run_agent_answers n input agent w limit h less =
          subst
            (λ (l : ℤ). Answered around agent.tool_registry (run_positive around l input agent w))
            (sym limit) (Answered-run_positive n input agent w h less)
