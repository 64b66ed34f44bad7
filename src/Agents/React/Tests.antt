-- ===== src/Agents/React/Tests.antt =====
-- The theorems on the loop at a small model, and runs of the code.
use awesome_agent.Prelude.{
  ℕ, zero, suc, ℤ, pos, ◌≤◌, ◌≡◌, refl, ap, Bool, true, false, Option, none, some, List, [], ◌∷◌,
  ◌++◌, Text, Dict, codes, Result, ok, err, length, text_eq, inl, inr, if_elim, arith,
}
use awesome_agent.Core.Message.{ToolCall, string, Message}
use awesome_agent.Core.Agent.{FinishReason, stop, tool_calls, add_message}
use awesome_agent.Tools.Tool.{Tool}
use awesome_agent.Tools.Registry.{ToolRegistry, new_tool_registry, register, tool}
use awesome_agent.Tools.Executor.{Floats, execute_one, run_parsed, run_found, arguments_of}
use awesome_agent.Agents.React.{
  ReActAgent, nil_executor, Surroundings, executor_of, run_agent, with_session,
}
use awesome_agent.Agents.React.Trace.{Conversed, run_agent-Trace, run_agent_bounded}
use awesome_agent.Agents.React.Liveness.{Replies, Answered, run_agent_answers}

abbrev F : Type 0
F = Unit {0}

abbrev clock_call : ToolCall
clock_call = record { id = codes "1"; name = codes "clock"; arguments = codes "[" }

abbrev asking : Message
asking = record {
  role = codes "assistant";
  content = string [];
  name = [];
  tool_calls = clock_call ∷ [];
  tool_call_id = [];
}

abbrev answering : Message
answering = record {
  role = codes "assistant";
  content = string (codes "noon");
  name = [];
  tool_calls = [];
  tool_call_id = [];
}

-- the world is how often the model calls a tool before it answers
abbrev chat : ℕ → Result Text (Message × FinishReason) × ℕ
chat zero = (ok (answering, stop), zero)
chat (suc w) = (ok (asking, tool_calls), w)

abbrev around : Surroundings F ℕ
around = record {
  build = λ query history prompt w. (query, w);
  chat_complete = λ messages tools w. chat w;
  show_parts = λ ps. [];
  unmarshal = λ s. err (codes "unexpected end");
  marshal = λ params. codes "{}";
  floats = record { is_integral = λ f. true; of_int = λ n. tt; parse = λ s. none };
  order = λ d. d;
  quote_text = λ s. s;
  show_error = λ e. [];
}

abbrev clock : Tool F ℕ
clock = record {
  name = codes "clock";
  description = [];
  parameters = [];
  run = λ params w. (ok (codes "12"), w);
}

abbrev registry : ToolRegistry F ℕ
registry = register new_tool_registry clock

abbrev agent_with : Option (ToolRegistry F ℕ) → ReActAgent F ℕ
agent_with tools = record {
  system_prompt = [];
  history = [];
  tool_registry = tools;
  executor = executor_of tools;
  max_steps = pos 3;
  session_id = codes "s";
}

run_agent-Trace_example :
    Conversed around
      (codes "time")
      (agent_with (some registry))
      2
      (run_agent around (codes "time") (agent_with (some registry)) 2)
run_agent-Trace_example = run_agent-Trace around (codes "time") (agent_with (some registry)) 2

run_agent_bounded_example :
    length (run_agent around (codes "time") (agent_with (some registry)) 2).1.history ≤ 1025
run_agent_bounded_example =
    run_agent_bounded around (codes "time") (agent_with (some registry)) 2 (omega arith)

parsed_keeps :
    (id s : Text) (w : ℕ)
    → (run_parsed around.floats around.order around.unmarshal around.quote_text around.show_error id
        clock w
        (arguments_of around.unmarshal s)).1
      ≡ w
unfolding awesome_agent.Tools.Executor.validate_params
parsed_keeps id [] w = refl
parsed_keeps id (c ∷ s) w = refl

found_keeps :
    (call : ToolCall) (w : ℕ) (o : Option (Tool F ℕ))
    → ((t : Tool F ℕ) → o ≡ some t → t ≡ clock)
    → (run_found around.floats around.order around.unmarshal around.quote_text around.show_error
        call w o).1
      ≡ w
found_keeps call w none h = refl
found_keeps call w (some t) h = rw (h t refl) (parsed_keeps call.id call.arguments w)

clock_only : (name : Text) (t : Tool F ℕ) → tool registry name ≡ some t → t ≡ clock
unfolding tool register awesome_agent.Prelude.lookup awesome_agent.Prelude.insert new_tool_registry
    text_eq
clock_only name t =
    if_elim (λ (o : Option (Tool F ℕ)). o ≡ some t → t ≡ clock) (text_eq (codes "clock") name)
      (some clock) none (λ c e. cc) (λ c e. cc)

tools_keep :
    (call : ToolCall) (w : ℕ)
    → (execute_one around.floats around.order around.unmarshal around.quote_text around.show_error
        registry call w).1
      ≤ w
unfolding execute_one
tools_keep call w =
    omega (arith, found_keeps call w (tool registry call.name) (clock_only call.name))

Replies-chat : (w : ℕ) → Replies around registry (λ w. w) w (chat w)
Replies-chat zero = (refl, inl refl)
Replies-chat (suc w) = (refl, inr (omega arith))

run_agent_answers_example :
    Answered around (some registry) (run_agent around (codes "time") (agent_with (some registry)) 2)
unfolding executor_of
run_agent_answers_example =
    run_agent_answers around registry (λ w. w) tools_keep (λ query history prompt w. omega arith)
      (λ messages tools w. Replies-chat w) 3 (codes "time") (agent_with (some registry)) 2 refl refl
      (omega arith)

answers_noon :
    (run_agent around (codes "time") (agent_with (some registry)) 2).0 ≡ ok (codes "noon")
unfolding run_agent executor_of register new_tool_registry text_eq
answers_noon = refl

-- An agent without a registry has no executor, and panics when the model calls a tool.
no_registry_panics : (run_agent around (codes "time") (agent_with none) 1).0 ≡ err nil_executor
unfolding run_agent executor_of
no_registry_panics = refl

-- Arguments that are no JSON are replaced, and the model does not learn of it.
broken_arguments : (with_session around (codes "s") clock_call).arguments ≡ codes "{}"
broken_arguments = refl

abbrev repeat : ℕ → Message → List Message
repeat zero m = []
repeat (suc n) m = m ∷ repeat n m

-- A full history is cut to its oldest messages: the newest, an answer here, are lost.
newest_lost : add_message asking (repeat 1024 asking ++ answering ∷ []) ≡ repeat 513 asking
unfolding add_message
newest_lost = refl
