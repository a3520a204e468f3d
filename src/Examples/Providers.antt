-- ===== src/Examples/Providers.antt =====
-- src/agent/providers.rs on small requests and streams.
use zier_alpha.Prelude.{
  ℕ, zero, ◌≡◌, refl, String, Text, List, [], ◌∷◌, ◌++◌, map, Option, none, some, codes, true,
  false, text_eq, if◌then◌else◌,
}
use zier_alpha.Agent.LlmError.{ToolCall}
use zier_alpha.Agent.Messages.{Message, SessionMessage, plain, user, assistant}
use zier_alpha.Agent.Client.{done}
use zier_alpha.Agent.Json.{Json, null, string, number, object, field, end, array, items, get}
use zier_alpha.Agent.Session.{Session, summarized, messages_for_llm}
use zier_alpha.Agent.Providers.{StreamChunk, tool_calls}
use zier_alpha.Agent.Providers.Sse.{NetChunk, bytes, read_chunks, read_events, drain_buffer}
use zier_alpha.Agent.Providers.Sse.Framing.{joined, read_chunks-joined}
use zier_alpha.Agent.Providers.OpenAi.{format_message, message_content}
use zier_alpha.Agent.Providers.OpenAi.Echo.{message_content-format_message}
use zier_alpha.Agent.Providers.OpenAi.Stream.{on_data, add_fragments}
use zier_alpha.Agent.Providers.OpenAi.Streamed.{arguments_at, arguments_at-add_fragments}
use zier_alpha.Agent.Providers.Anthropic.{format_messages}
use zier_alpha.Agent.Providers.Anthropic.System.{format_messages-summarized}

abbrev call : ToolCall
call = record { id = "c1"; name = "read"; arguments = codes "{}" }

abbrev answer : Message
answer = record (plain assistant (codes "let me see")) { tool_calls = some (call ∷ []) }

message_content-format_message_example :
    message_content (format_message answer) ≡ tool_calls (call ∷ [])
message_content-format_message_example = message_content-format_message answer refl

abbrev fragment : ℕ → String → Json
fragment n t = object (
    field "index" (number n)
      (field "function" (object (field "arguments" (string (codes t)) end)) end))

abbrev fragments : List Json
fragments = fragment 0 "ab" ∷ fragment 1 "x" ∷ fragment 0 "cd" ∷ []

arguments_at-add_fragments_example : arguments_at 0 (add_fragments fragments []) ≡ codes "abcd"
unfolding zier_alpha.Agent.Json.get_field
arguments_at-add_fragments_example = arguments_at-add_fragments 0 fragments []

abbrev hello : Json
hello = object (
    field "choices"
      (array (
        items
          (object (field "delta" (object (field "content" (string (codes "hi")) end)) end) ∷ [])))
      end)

abbrev hello_with_usage : Json
hello_with_usage = object (field "usage" null (field "choices" (array (items [])) end))

abbrev from_str : Text → Option Json
from_str t = if text_eq t (codes "u") then some hello_with_usage else some hello

abbrev decode : List ℕ → Text
decode bs = bs

abbrev parts : List (List ℕ)
parts =
    codes "da"
    ∷ (codes "ta: h" ++ 10 ∷ [])
    ∷ (10 ∷ codes "data: [DO")
    ∷ (codes "NE]" ++ 10 ∷ 10 ∷ [])
    ∷ []

read_chunks-joined_example :
    read_chunks (on_data from_str) decode (map bytes parts) [] []
    ≡ (read_events (on_data from_str) (drain_buffer (joined decode parts)).0 []).0
read_chunks-joined_example = read_chunks-joined (on_data from_str) decode parts []

-- The stream of the example says something.
two_chunks :
    (read_events (on_data from_str) (drain_buffer (joined decode parts)).0 []).0
    ≡ done (record { delta = codes "hi"; is_done = false; tool_calls = none })
      ∷ done (record { delta = []; is_done = true; tool_calls = none })
      ∷ []
unfolding read_events drain_buffer zier_alpha.Agent.Providers.Sse.split_event
    zier_alpha.Prelude.starts_with zier_alpha.Memory.Chunks.lines
    zier_alpha.Agent.Session.Format.strip_prefix on_data text_eq zier_alpha.Agent.Json.get_field
    zier_alpha.Agent.Json.to_list items
two_chunks = refl

abbrev said : String → SessionMessage
said t = record {
  message = plain user (codes t);
  provider = none;
  model = none;
  api = none;
  usage = none;
  stop_reason = none;
  timestamp = 0;
  model_config_name = none;
  latency_ms = none;
}

abbrev session : Session
session = record {
  id = "s";
  created_at = 0;
  cwd = codes "/work";
  messages = said "a" ∷ said "b" ∷ said "c" ∷ said "d" ∷ said "e" ∷ [];
  system_context = some (codes "You are careful.");
  token_count = 9;
  compaction_count = 0;
  memory_flush_compaction_count = 0;
  dirty = false;
}

format_messages-summarized_example :
    (format_messages from_str (messages_for_llm (summarized none 3 (codes "ab") session))).0
    ≡ some (codes "Previous conversation summary:" ++ 10 ∷ 10 ∷ codes "ab")
format_messages-summarized_example =
    format_messages-summarized from_str none 3 (codes "ab") session refl
