-- ===== src/Agent/Providers.antt =====
-- src/agent/providers.rs: what is sent to the model services and how their answers are read. The HTTP
-- client is a parameter; a client's answer is a status and, if it is JSON, a value.
pub mod Sse
pub mod OpenAi
pub mod Anthropic
pub mod Ollama
pub mod ClaudeCli
pub mod Create
use zier_alpha.Prelude.Strings.{from_codes}
use zier_alpha.Prelude.{
  ℕ, String, Text, List, [], ◌∷◌, ◌++◌, map, Option, none, some, Bool, true, is_empty, codes,
  text_eq, if◌then◌else◌,
}
use zier_alpha.Ingress.Types.{ImageAttachment}
use zier_alpha.Agent.LlmError.{ToolCall}
use zier_alpha.Agent.Messages.{Message, Usage, plain, user}
use zier_alpha.Agent.Client.{Outcome, done, failed, Failure, other}
use zier_alpha.Agent.Json.{
  Json, string, number, object, field, end, get, index, as_str, as_u64, put, Fields, array, items,
}

pub data LlmResponseContent : Type 0 where
  text : Text → LlmResponseContent
  tool_calls : List ToolCall → LlmResponseContent

pub record LlmResponse : Type 0 where
  pub content : LlmResponseContent
  pub usage : Option Usage

pub record StreamChunk : Type 0 where
  pub delta : Text
  pub is_done : Bool
  pub tool_calls : Option (List ToolCall)

pub record ToolSchema : Type 0 where
  pub name : Text
  pub description : Text
  pub parameters : Json

-- The default of `LLMProvider::chat_stream`: the whole answer as one chunk.
unfoldable pub single_chunk : LlmResponse → List StreamChunk
single_chunk r = elim r.content [
  | text t ↦ record { delta = t; is_done = true; tool_calls = none } ∷ []
  | tool_calls calls ↦ record { delta = []; is_done = true; tool_calls = some calls } ∷ []
]

abbrev pub or_value {ℓ} : {A : Type ℓ} → A → Option A → A
or_value a none = a
or_value a (some b) = b

-- `value[k].as_str().unwrap_or("")` and the like.
abbrev pub str_or : Text → String → Json → Text
str_or fallback k v = or_value fallback (as_str (index k v))

abbrev pub u64_or_0 : String → Json → ℕ
u64_or_0 k v = or_value 0 (as_u64 (index k v))

-- The usage of a response, under the names that the service gives to its numbers.
unfoldable pub read_usage : String → String → Json → Option Usage
read_usage input output body = elim (get "usage" body) [
  | none ↦ none
  | some u ↦ some (record { input_tokens = u64_or_0 input u; output_tokens = u64_or_0 output u })
]

abbrev pub text_part : Text → Json
text_part t = object (field "type" (string (codes "text")) (field "text" (string t) end))

-- The parts of a message with images: the images first, then the text unless it is empty.
unfoldable pub content_parts : (ImageAttachment → Json) → Message → List Json
content_parts image m =
    map image m.images ++ (if is_empty m.content then [] else text_part m.content ∷ [])

-- The tools of a request, unless there are none.
unfoldable pub with_tools : (ToolSchema → Json) → Option (List ToolSchema) → Fields → Fields
with_tools format none body = body
with_tools format (some []) body = body
with_tools format (some (t ∷ ts)) body = put "tools" (array (items (map format (t ∷ ts)))) body

-- The message that asks for a summary, and the text of its answer.
unfoldable pub summary_request : Text → List Message
summary_request t =
    plain user (
      codes
        "Summarize the following conversation concisely, preserving key information and context:"
      ++ 10 ∷ 10 ∷ t)
    ∷ []

unfoldable pub summary_text : Outcome LlmResponse → Outcome Text
summary_text (failed f) = failed f
summary_text (done r) = elim r.content [
  | text t ↦ done t
  | tool_calls calls ↦ failed (other (codes "Unexpected response type"))
]
