-- ===== src/Agent/ChatEngine.antt =====
-- src/agent/chat_engine.rs: a message of the user, the model's answer, and the tools in between.
-- The state of a conversation is the session, the approvals and a world `W`, in which the clients and
-- the tools live and which has the clock. The answers of the clients are functions of the messages
-- that they are given. The loop over the answers takes fuel, one unit for each answer.
pub mod Turns
pub mod Streams
pub mod Rounds
pub mod Tokens
pub mod Covered
pub mod Protocol
pub mod Fuel
pub mod Ending
use zier_alpha.Prelude.Dict.{has}
use zier_alpha.Prelude.{
  ℕ, zero, suc, ◌+◌, String, Text, List, [], ◌∷◌, ◌++◌, Option, none, some, Bool, true, false, ◌&&◌,
  not, is_empty, codes, decimal, if◌then◌else◌,
}
use zier_alpha.Ingress.Types.{ImageAttachment}
use zier_alpha.Agent.LlmError
use zier_alpha.Agent.LlmError.{LlmError, ToolCall}
use zier_alpha.Agent.Client.{Failure, llm, other, Outcome, done, failed}
use zier_alpha.Agent.Messages.{Message, Role, Usage, user, assistant, tool, plain, is_assistant}
use zier_alpha.Agent.Session.{
  Session, add_message, add_metadata_to_last_message, messages_for_llm, mark_memory_flushed,
}
use zier_alpha.Agent.SessionManager.{
  CompactionConfig, should_compact, should_memory_flush, compact_session,
}
use zier_alpha.Agent.ToolExecutor.{
  Approved, Tool, ToolsConfig, ToolResult, output, approval_required, tool_failed, unknown_tool,
  execute_tool,
}
pub use zier_alpha.Agent.Providers.{LlmResponseContent, text, tool_calls, StreamChunk}
use zier_alpha.Agent.Action.{
  Reply, replied, raised, out_of_fuel, Action, pure, raise, lift, from_outcome, ◌>>=◌, ◌>>◌,
}

-- The parts of a `SmartResponse` that the engine reads.
pub record SmartReply : Type 0 where
  pub content : LlmResponseContent
  pub usage : Option Usage
  pub used_model : Text
  pub latency_ms : ℕ

-- What the engine is made of. `supports_vision` is that of the agent's model, if it resolves;
-- `vision_chat` is the client of the vision model; `display` gives the text of an error.
pub record Engine (W : Type 0) : Type 0 where
  pub bpe : Option (Text → ℕ)
  pub now : W → ℕ
  pub today : W → Text
  pub display : Failure → Text
  pub supports_vision : Outcome (Option Bool)
  pub fallback_prompt : Text
  pub vision_chat : List Message → W → Outcome SmartReply × W
  pub client_chat : List Message → W → Outcome SmartReply × W
  pub client_stream : List Message → W → Outcome (List (Outcome StreamChunk)) × W
  pub replace_ci : Text → Text → Text → Text
  pub suspicious : List ((Text → Bool) × Text)
  pub tools_config : ToolsConfig
  pub tools : List (Tool W)
  pub context_window : ℕ
  pub reserve_tokens : ℕ
  pub compaction : CompactionConfig
  pub compact : Option String → Session → W → Outcome (Unit {0}) × Session × W

pub record Chat (W : Type 0) : Type 0 where
  pub session : Session
  pub approved : Approved
  pub world : W

abbrev pub calls_message : Text → Option (List ToolCall) → Message
calls_message content calls = record (plain assistant content) { tool_calls = calls }

abbrev pub tool_message : String → Text → Message
tool_message call_id content = record (plain tool content) { tool_call_id = some call_id }

abbrev pub user_message : Text → List ImageAttachment → Message
user_message content images = record (plain user content) { images = images }

unfoldable pub total_usage : Option Usage → Option Usage → Option Usage
total_usage (some a) (some b) = some (record {
  input_tokens = a.input_tokens + b.input_tokens;
  output_tokens = a.output_tokens + b.output_tokens;
})
total_usage (some a) none = some a
total_usage none b = b

-- The text that a call's result is for the model.
unfoldable pub result_text : (Failure → Text) → ToolResult → Text
result_text display (output t) = t
result_text display (tool_failed e) = codes "Error: " ++ display e
result_text display (unknown_tool name) = codes "Error: Unknown tool: " ++ codes name
result_text display (approval_required name call) =
    codes "Error: Tool '" ++ (codes name ++ codes "' requires approval")

abbrev pub newline : Text
newline = 10 ∷ []

unfoldable pub flush_prompt : Text → Text
flush_prompt today =
    codes "Pre-compaction memory flush. Session nearing token limit."
    ++ (newline
        ++ (codes "Store durable memories now (use memory/"
            ++ (today
                ++ (codes ".md; create memory/ if needed)."
                    ++ (newline
                        ++ (codes
                              "- MEMORY.md for persistent facts (user info, preferences, key decisions)"
                            ++ (newline
                                ++ (codes "- memory/"
                                    ++ (today
                                        ++ (codes ".md for session notes"
                                            ++ (newline
                                                ++ (newline
                                                    ++ codes
                                                        "If nothing to store, reply: NO_REPLY"))))))))))))

-- The last message of the assistant with tool calls: its calls, and the messages after it.
unfoldable pub last_calls : List Message → Option (List ToolCall × List Message)
last_calls [] = none
last_calls (m ∷ ms) = elim (last_calls ms) [
  | some found ↦ some found
  | none ↦ elim m.tool_calls [
    | some calls ↦ if is_assistant m.role then some (calls, ms) else none
    | none ↦ none
  ]
]

abbrev pub is_tool : Role → Bool
is_tool tool = true
is_tool _ = false

-- The calls that the tools' messages answer.
unfoldable pub executed_ids : List Message → List String
executed_ids [] = []
executed_ids (m ∷ ms) = elim m.tool_call_id [
  | some id ↦ if is_tool m.role then id ∷ executed_ids ms else executed_ids ms
  | none ↦ executed_ids ms
]
