-- ===== src/Agent/Providers/OpenAi.antt =====
-- src/agent/providers.rs, `OpenAIProvider`.
pub mod Stream
pub mod Streamed
pub mod Echo
use zier_alpha.Agent.LlmError
use zier_alpha.Prelude.Strings.{from_codes}
use zier_alpha.Prelude.{
  ℕ, String, Text, List, [], ◌∷◌, ◌++◌, map, Option, none, some, Bool, true, false, ◌&&◌, not,
  is_empty, codes, text_eq, ◌>>=◌, if◌then◌else◌,
}
use zier_alpha.Agent.LlmError.{ToolCall}
use zier_alpha.Agent.Messages.{Role, system, user, assistant, tool, Message, Usage}
use zier_alpha.Agent.Client.{Outcome, done, failed, Failure, llm, other}
use zier_alpha.Agent.Json.{
  Json, null, boolean, string, number, object, Fields, field, end, get, index, as_str, as_u64,
  as_array, put, put_option, map_some, array, items,
}
use zier_alpha.Agent.Session.Format.{image_item}
use zier_alpha.Agent.Providers.{
  LlmResponseContent, text, tool_calls, LlmResponse, ToolSchema, read_usage, content_parts,
  with_tools, str_or, summary_request, summary_text,
}

abbrev pub role_name : Role → Text
role_name system = codes "system"
role_name user = codes "user"
role_name assistant = codes "assistant"
role_name tool = codes "tool"

abbrev pub is_user : Role → Bool
is_user user = true
is_user _ = false

unfoldable pub format_tool : ToolSchema → Json
format_tool t = object (
    field "type" (string (codes "function")) (
      field "function"
        (object (
          field "name" (string t.name)
            (field "description" (string t.description) (field "parameters" t.parameters end))))
        end))

abbrev pub format_call : ToolCall → Json
format_call call = object (
    field "id" (string (codes call.id)) (
      field "type" (string (codes "function")) (
        field "function"
          (object (
            field "name" (string (codes call.name))
              (field "arguments" (string call.arguments) end)))
          end)))

abbrev pub format_calls : List ToolCall → Json
format_calls calls = array (items (map format_call calls))

abbrev pub format_id : String → Json
format_id id = string (codes id)

unfoldable pub format_content : Message → Json
format_content m =
    if is_user m.role && not (is_empty m.images)
    then array (items (content_parts image_item m))
    else string m.content

unfoldable pub format_message : Message → Json
unfolding format_content
format_message m = object (
    put_option "tool_call_id" (map_some format_id m.tool_call_id) (
      put_option "tool_calls" (map_some format_calls m.tool_calls)
        (field "role" (string (role_name m.role)) (field "content" (format_content m) end))))

-- `format_messages` is `format_message` on each.
unfoldable pub request_body : Text → List Message → Option (List ToolSchema) → Json
unfolding format_tool format_message
request_body model messages tools = object (
    with_tools format_tool tools (
      field "model" (string model)
        (field "messages" (array (items (map format_message messages))) end)))

unfoldable pub stream_body : Text → List Message → Option (List ToolSchema) → Json
unfolding format_tool format_message
stream_body model messages tools = object (
    with_tools format_tool tools (
      field "model" (string model) (
        field "messages" (array (items (map format_message messages))) (
          field "stream" (boolean true)
            (field "stream_options" (object (field "include_usage" (boolean true) end)) end)))))

abbrev pub first {ℓ} : {A : Type ℓ} → List A → Option A
first [] = none
first (x ∷ xs) = some x

-- The error of a body that has one.
unfoldable pub body_error : Json → Failure
body_error e =
    let message = str_or (codes "Unknown error") "message" e in
    elim (as_str (index "code" e)) [
      | none ↦ llm (LlmError.provider_error 400 message)
      | some code ↦
          if text_eq code (codes "rate_limit_exceeded")
          then llm (LlmError.rate_limit message)
          else if text_eq code (codes "context_length_exceeded")
          then llm (LlmError.context_window_exceeded message)
          else llm (LlmError.provider_error 400 message)
    ]

unfoldable pub parse_call : Json → ToolCall
parse_call tc = record {
  id = from_codes (str_or [] "id" tc);
  name = from_codes (str_or [] "name" (index "function" tc));
  arguments = str_or (codes "{}") "arguments" (index "function" tc);
}

abbrev pub calls_or : LlmResponseContent → Option (List Json) → LlmResponseContent
calls_or said none = said
calls_or said (some []) = said
calls_or said (some (c ∷ cs)) = tool_calls (map parse_call (c ∷ cs))

-- The calls of a message, or its text if it has none.
unfoldable pub message_content : Json → LlmResponseContent
unfolding parse_call
message_content message =
    calls_or (text (str_or [] "content" message)) (get "tool_calls" message >>= as_array)

unfoldable pub read_response : Json → Outcome LlmResponse
unfolding body_error message_content
read_response body = elim (get "error" body) [
  | some e ↦ failed (body_error e)
  | none ↦ elim (as_array (index "choices" body) >>= first) [
    | none ↦ failed (other (codes "No choices in response"))
    | some choice ↦ done (record {
      content = message_content (index "message" choice);
      usage = read_usage "prompt_tokens" "completion_tokens" body;
    })
  ]
]

-- `post` sends a body and gives the JSON of the answer, whatever its status.
module _ {W : Type 0} (post : Json → W → Outcome Json × W) (model : Text) where
  unfoldable pub chat : List Message → Option (List ToolSchema) → W → Outcome LlmResponse × W
  unfolding request_body read_response
  chat messages tools w =
      let (answer, w') = post (request_body model messages tools) w in
      (elim answer [ failed e ↦ failed e | done body ↦ read_response body ], w')

  unfoldable pub summarize : Text → W → Outcome Text × W
  unfolding chat
  summarize t w = let (r, w') = chat (summary_request t) none w in (summary_text r, w')
