-- ===== src/Agents/React/Trace.antt =====
-- A run of agents/react.go is a conversation with the model.
use awesome_agent.Prelude.{
  ℕ, zero, suc, ℤ, pos, negsuc, ◌≤◌, ◌≡◌, refl, sym, ap, ◌∙◌, ◌&&◌, Option, none, some, List, [],
  ◌∷◌, ◌++◌, Text, Result, ok, err, length, length-append, arith, codes, inl, inr, ◌⊎◌, map, subst,
  if_elim,
}
use awesome_agent.Core.Message.{ToolCall, Message}
use awesome_agent.Core.Agent.{FinishReason, add_message, add_messages}
use awesome_agent.Tools.Registry.{ToolRegistry}
use awesome_agent.Tools.Executor.{execute}
use awesome_agent.Tools.Executor.Laws.{AllAnswered-execute_all}
use awesome_agent.Agents.React.{
  ReActAgent, AgentError, steps_not_positive, executor_error, nil_executor, Surroundings,
  user_message, is_tool_calls, is_filter, has_calls, inject_session_id, build_messages,
  record_message, run_calls, after_calls, act_on_calls, with_session, after_reply, run_steps,
  run_positive, run_agent,
}
use awesome_agent.Agents.React.Conversation.{
  Added, Added-add_messages, AllAnswered-SameCalls, Calls, Calls-calling, NotExecuted, SameCalls,
  SameCalls-refl, Says-extract_string, Trace, answered, answered_by, asked, chat_failed,
  chat_filtered, cut, done, exhausted, filtered_only, kept, not_executed, panicked, quiet, refused,
  round, unfiltered,
}

module _ {F W : Type 0} (around : Surroundings F W) where
  SameCalls-map :
      (c : ℕ) (s : Text) (calls : List ToolCall)
      → SameCalls (c ∷ s) calls (map (with_session around (c ∷ s)) calls)
  SameCalls-map c s [] = tt
  SameCalls-map c s (call ∷ calls) = (refl, refl, λ h. cc, SameCalls-map c s calls)

  SameCalls-inject_session_id :
      (session_id : Text) (calls : List ToolCall)
      → SameCalls session_id calls (inject_session_id around session_id calls)
  unfolding inject_session_id
  SameCalls-inject_session_id [] calls = SameCalls-refl [] calls
  SameCalls-inject_session_id (c ∷ s) calls = SameCalls-map c s calls

  module _ (agent : ReActAgent F W) (input : Text) where
    abbrev at : List Message → ReActAgent F W
    at history = record agent { history = history }

    -- the conversation that an outcome ends
    abbrev Leaves : ℕ → List Message → W → Result AgentError Text × ReActAgent F W × W → Type 0
    Leaves n history w (r, after, w') = Trace around agent input n history w r after.history w'

    module _ (n : ℕ) (continue : ReActAgent F W → W → Result AgentError Text × ReActAgent F W × W)
        (traced : (history : List Message) (w : W) → Leaves n history w (continue (at history) w))
        (history : List Message) (w w' : W) (reply : Message) (reason : FinishReason)
        (replied : asked around agent input history w ≡ (ok (reply, reason), w')) where
      Leaves-after_calls :
          (e : Option (Option (ToolRegistry F W))) (calls : List ToolCall)
          → agent.executor ≡ e
          → Calls reply reason
          → SameCalls agent.session_id reply.tool_calls calls
          → Leaves (suc n) history w (
              after_calls around continue
                (record_message around (record reply { tool_calls = calls }) (at history))
                (run_calls around e calls w'))
      unfolding execute add_messages
      Leaves-after_calls none calls h asks same =
          let sent = record reply { tool_calls = calls } in
          not_executed n history (add_message sent history) w w' reply reason calls nil_executor
            replied asks same (subst (λ e. NotExecuted e nil_executor) (sym h) panicked)
            (Added-add_messages (sent ∷ []) history)
      Leaves-after_calls (some none) calls h asks same =
          let sent = record reply { tool_calls = calls } in
          not_executed n history (add_message sent history) w w' reply reason calls
            (executor_error (codes "ToolRegistry has not been initialized")) replied asks same
            (subst
              (λ e. NotExecuted e (executor_error (codes "ToolRegistry has not been initialized")))
              (sym h) refused)
            (Added-add_messages (sent ∷ []) history)
      Leaves-after_calls (some (some registry)) calls h asks same =
          let sent = record reply { tool_calls = calls } in
          let (answers, w2) = answered_by around registry calls w' in
          let h1 = add_messages answers (add_message sent history) in
          round n history h1 _ w w' w2 _ reply reason calls registry answers _ replied asks same h
            refl
            (AllAnswered-SameCalls agent.session_id reply.tool_calls calls answers same (
              AllAnswered-execute_all around.floats around.order around.unmarshal around.quote_text
                around.show_error registry calls w'))
            (Added-add_messages (sent ∷ answers) history) (traced h1 w2)

      Leaves-replied :
          Leaves
            (suc n)
            history
            w
            (after_reply around continue (at history) (ok (reply, reason), w'))
      unfolding add_messages
      Leaves-replied =
          let P = Leaves (suc n) history w in
          let calling = is_tool_calls reason && has_calls reply.tool_calls in
          if_elim P (is_filter reason) _ _
            (λ h.
              chat_filtered n history w w' reply
                (replied ∙ ap (λ why. (ok (reply, why), w')) (filtered_only reason h)))
            (λ h.
              if_elim P calling (act_on_calls around continue (at history) reply w') _
                (λ c.
                  Leaves-after_calls agent.executor
                    (inject_session_id around agent.session_id reply.tool_calls) refl
                    (Calls-calling reply reason reply.tool_calls refl c)
                    (SameCalls-inject_session_id agent.session_id reply.tool_calls))
                (λ c.
                  answered n history (add_message reply history) w w' reply reason _ replied
                    (unfiltered reason h) (quiet reply reason c)
                    (Says-extract_string around.show_parts reply.content)
                    (Added-add_messages (reply ∷ []) history)))

    Leaves-after_reply :
        (n : ℕ) (continue : ReActAgent F W → W → Result AgentError Text × ReActAgent F W × W)
        → ((history : List Message) (w : W) → Leaves n history w (continue (at history) w))
        → (history : List Message) (w w' : W) (r : Result Text (Message × FinishReason))
        → asked around agent input history w ≡ (r, w')
        → Leaves (suc n) history w (after_reply around continue (at history) (r, w'))
    Leaves-after_reply n continue traced history w w' (err e) replied =
        chat_failed n history w w' e replied
    Leaves-after_reply n continue traced history w w' (ok (reply, reason)) replied =
        Leaves-replied n continue traced history w w' reply reason replied

    Leaves-run_steps :
        (n : ℕ) (history : List Message) (w : W)
        → Leaves n history w (run_steps around n input (at history) w)
    unfolding run_steps build_messages
    Leaves-run_steps zero history w = exhausted history w
    Leaves-run_steps (suc n) history w =
        let replied = asked around agent input history w in
        Leaves-after_reply n (run_steps around n input) (Leaves-run_steps n) history w replied.1
          replied.0 refl

  -- The input joins the history, and then the conversation runs for the positive limit on the steps;
  -- without such a limit the run fails and leaves all as it was.
  abbrev pub Conversed :
      Text → ReActAgent F W → W → Result AgentError Text × ReActAgent F W × W → Type 0
  Conversed input agent w (r, after, w') =
      ((n : ℕ) × (history : List Message) × (agent.max_steps ≡ pos (suc n))
        × Added agent.history (user_message input ∷ []) history
        × Trace around agent input (suc n) history w r after.history w')
      ⊎ (((n : ℕ) → ¬ (agent.max_steps ≡ pos (suc n)))
          × (r ≡ err steps_not_positive)
          × (after.history ≡ agent.history)
          × (w' ≡ w))

  Conversed-run_positive :
      (limit : ℤ) (input : Text) (agent : ReActAgent F W) (w : W)
      → agent.max_steps ≡ limit
      → Conversed input agent w (run_positive around limit input agent w)
  unfolding add_messages
  Conversed-run_positive (negsuc k) input agent w h = inr ((λ n e. cc), refl, refl, refl)
  Conversed-run_positive (pos zero) input agent w h = inr ((λ n e. cc), refl, refl, refl)
  Conversed-run_positive (pos (suc n)) input agent w h =
      let history = add_message (user_message input) agent.history in
      inl (
        n,
        history,
        h,
        Added-add_messages (user_message input ∷ []) agent.history,
        Leaves-run_steps agent input (suc n) history w,
      )

  -- A run with a positive limit on its steps first adds the input to the history. Then, at most as
  -- many times as the limit, the model is asked with the built context and the input. A reply with
  -- the reason tool_calls and with calls is recorded, with its calls (of a session, only their
  -- arguments differ), and after it the answers of the registry's tools, one for each call in their
  -- order; without an executor or a registry the reply alone is recorded and the run fails. Any other
  -- reply, unless it was filtered, is recorded as it is, and what it says is the result. An error or a
  -- filtered reply ends the run and adds nothing, and so does the limit, with a fixed text. Adding to
  -- a history of more than 1024 messages first cuts it to its first 512, so that newer ones are lost.
  -- Without a positive limit the run fails and leaves the history and the world.
  pub run_agent-Trace :
      (input : Text) (agent : ReActAgent F W) (w : W)
      → Conversed input agent w (run_agent around input agent w)
  unfolding run_agent
  run_agent-Trace input agent w = Conversed-run_positive agent.max_steps input agent w refl

  bounded-Added :
      (history ms result : List Message)
      → Added history ms result
      → length history ≤ 1025
      → length result ≤ 1025
  bounded-Added _ _ _ (done history) h = h
  bounded-Added _ _ _ (kept history ms result m few rest) h =
      bounded-Added (history ++ m ∷ []) ms result rest
        (omega (arith, few, length-append history (m ∷ [])))
  bounded-Added _ _ _ (cut history first lost ms result m many same half rest) h =
      bounded-Added (first ++ m ∷ []) ms result rest
        (omega (arith, half, length-append first (m ∷ [])))

  bounded-Trace :
      (agent : ReActAgent F W) (input : Text) (n : ℕ) (history : List Message) (w : W)
      (r : Result AgentError Text) (after : List Message) (w' : W)
      → Trace around agent input n history w r after w'
      → length history ≤ 1025
      → length after ≤ 1025
  bounded-Trace agent input _ _ _ _ _ _ (exhausted history w) h = h
  bounded-Trace agent input _ _ _ _ _ _ (chat_failed n history w w' e a) h = h
  bounded-Trace agent input _ _ _ _ _ _ (chat_filtered n history w w' reply a) h = h
  bounded-Trace agent input _ _ _ _ _ _
        (answered n history history' w w' reply reason text a b c d added) h =
      bounded-Added history (reply ∷ []) history' added h
  bounded-Trace agent input _ _ _ _ _ _
        (not_executed n history history' w w' reply reason calls e a b c d added) h =
      bounded-Added history _ history' added h
  bounded-Trace agent input _ _ _ _ _ _
        (round n history h1 h2 w w1 w2 w3 reply reason calls registry answers r a b c d e f added
          rest)
        h =
      bounded-Trace agent input n h1 w2 r h2 w3 rest (bounded-Added history _ h1 added h)

  -- A history of at most 1025 messages is one after any run.
  pub run_agent_bounded :
      (input : Text) (agent : ReActAgent F W) (w : W)
      → length agent.history ≤ 1025
      → length (run_agent around input agent w).1.history ≤ 1025
  run_agent_bounded input agent w h = elim (run_agent-Trace input agent w) [
    | inl (n, history, limit, added, trace) ↦
        bounded-Trace agent input (suc n) history w _ _ _ trace
          (bounded-Added agent.history (user_message input ∷ []) history added h)
    | inr (limit, failed, same, w_same) ↦ omega (arith, h, ap length same)
  ]
