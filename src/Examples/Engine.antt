-- ===== src/Examples/Engine.antt =====
-- src/agent/chat_engine.rs with a model that calls a tool as often as the world says, and then answers.
use zier_alpha.Prelude.{
  ℕ, zero, suc, ◌≤◌, ◌<◌, ◌≡◌, ◌≢◌, refl, String, Text, List, [], ◌∷◌, Option, none, some, codes,
  true, false, arith, length, ltb, Bool-cases, inl, inr,
}
use zier_alpha.Agent.LlmError.{ToolCall}
use zier_alpha.Agent.Messages.{Message}
use zier_alpha.Agent.Client.{Outcome, done}
use zier_alpha.Agent.Session.{Session, compact_native}
use zier_alpha.Agent.Session.Covered.{IsCovered}
use zier_alpha.Agent.SessionManager.{CompactionConfig, native}
use zier_alpha.Agent.ToolExecutor.{Approved, Tool, ToolsConfig, returned, execute_tool, dispatch}
use zier_alpha.Agent.Action.{replied, out_of_fuel}
use zier_alpha.Agent.ChatEngine.{
  SmartReply, StreamChunk, LlmResponseContent, text, tool_calls, Engine, Chat,
}
use zier_alpha.Agent.ChatEngine.Turns.{chat_with_images, continue_chat, handle_response}
use zier_alpha.Agent.ChatEngine.Streams.{stream_with_tool_loop}
use zier_alpha.Agent.ChatEngine.Covered.{chat-IsCovered}
use zier_alpha.Agent.ChatEngine.Protocol.{Protocol, stream_with_tool_loop-Protocol}
use zier_alpha.Agent.ChatEngine.Fuel.{IsBounded}
use zier_alpha.Agent.ChatEngine.Ending.{chat-ne-out_of_fuel}
use zier_alpha.Agent.ChatEngine.Rounds.{Rounds}

abbrev read : Tool ℕ
read = record { name = "read"; execute = λ arguments w. (returned (codes "contents"), w) }

abbrev settings : ToolsConfig
settings = record {
  require_approval = "bash" ∷ [];
  use_content_delimiters = false;
  tool_output_max_chars = 0;
}

abbrev call : ToolCall
call = record { id = "7"; name = "read"; arguments = codes "{}" }

abbrev reply : LlmResponseContent → SmartReply
reply content = record { content = content; usage = none; used_model = codes "m"; latency_ms = 3 }

abbrev client_chat : List Message → ℕ → Outcome SmartReply × ℕ
client_chat ms zero = (done (reply (text (codes "that is all"))), 0)
client_chat ms (suc w) = (done (reply (tool_calls (call ∷ []))), w)

abbrev chunk : Option (List ToolCall) → StreamChunk
chunk calls = record { delta = codes "so"; is_done = true; tool_calls = calls }

abbrev client_stream : List Message → ℕ → Outcome (List (Outcome StreamChunk)) × ℕ
client_stream ms zero = (done (done (chunk none) ∷ []), 0)
client_stream ms (suc w) = (done (done (chunk (some (call ∷ []))) ∷ []), w)

abbrev summarize : Option String → Text → ℕ → Outcome Text × ℕ
summarize model t w = (done (codes "in short"), w)

abbrev keep_text : Text → Text → Text → Text
keep_text pattern mark t = t

abbrev compaction : CompactionConfig
compaction = record { strategy = "models"; fallback_models = []; keep_last = 2 }

abbrev engine : Engine ℕ
engine = record {
  bpe = none;
  now = λ w. w;
  today = λ w. codes "2026-01-01";
  display = λ f. codes "failed";
  supports_vision = done (some true);
  fallback_prompt = codes "Describe";
  vision_chat = client_chat;
  client_chat = client_chat;
  client_stream = client_stream;
  replace_ci = keep_text;
  suspicious = [];
  tools_config = settings;
  tools = read ∷ [];
  context_window = 100000;
  reserve_tokens = 20000;
  compaction = compaction;
  compact = λ m s w. native none w summarize m s w;
}

abbrev session : Session
session = record {
  id = "s";
  created_at = 0;
  cwd = codes "/work";
  messages = [];
  system_context = none;
  token_count = 5;
  compaction_count = 0;
  memory_flush_compaction_count = 1;
  dirty = false;
}

abbrev start : Chat ℕ
start = record { session = session; approved = []; world = 2 }

engine_compact : (s : Session) (m : Option String) (w : ℕ) → (engine.compact m s w).2 ≤ w
unfolding native compact_native
engine_compact s m w = elim (Bool-cases (ltb (length s.messages) 4)) [
  | inl few ↦ rw few (omega arith)
  | inr many ↦ rw many (omega arith)
]

engine_tool :
    (k : ToolCall) (approved : Approved) (w : ℕ)
    → (execute_tool keep_text [] settings (read ∷ []) k approved w).2 ≤ w
unfolding execute_tool dispatch zier_alpha.Agent.ToolExecutor.requires_approval
    zier_alpha.Agent.ToolExecutor.consume
engine_tool k approved w = ground arith

client_chat-calls :
    (ms : List Message) (w : ℕ) (r : SmartReply) (calls : List ToolCall)
    → (client_chat ms w).0 ≡ done r
    → r.content ≡ tool_calls calls
    → (client_chat ms w).1 < w
client_chat-calls ms zero r calls h k = absurd (grind arith)
client_chat-calls ms (suc w) r calls h k = omega arith

client_chat-le : (ms : List Message) (w : ℕ) → (client_chat ms w).1 ≤ w
client_chat-le ms zero = omega arith
client_chat-le ms (suc w) = omega arith

engine-IsBounded : IsBounded engine (λ w. w)
engine-IsBounded = record {
  by_chat = client_chat-le;
  by_calls = client_chat-calls;
  by_vision = client_chat-le;
  by_tool = engine_tool;
  by_compact = λ m s w. engine_compact s m w;
}

chat-ne-out_of_fuel_example :
    ((chat_with_images engine 4 (codes "look") [] start).0 ≢ out_of_fuel)
    × ((continue_chat engine 4 start).0 ≢ out_of_fuel)
chat-ne-out_of_fuel_example =
    chat-ne-out_of_fuel engine (λ w. w) engine-IsBounded 4 (codes "look") [] start (omega arith)

chat-IsCovered_example :
    IsCovered none (chat_with_images engine 4 (codes "look") [] start).1.session
    × IsCovered none (continue_chat engine 4 start).1.session
unfolding zier_alpha.Agent.Session.context_tokens
chat-IsCovered_example =
    chat-IsCovered engine summarize (λ m s w. refl) 4 (codes "look") [] start (omega arith)

stream_with_tool_loop-Protocol_example : Protocol settings (stream_with_tool_loop engine start).0
stream_with_tool_loop-Protocol_example = stream_with_tool_loop-Protocol engine start

abbrev after_reply : Chat ℕ
after_reply = (handle_response engine 4 (reply (tool_calls (call ∷ []))) start).1
