-- ===== src/Agent/Providers/Anthropic.antt =====
-- src/agent/providers.rs, `AnthropicProvider`.
pub mod Stream
pub mod System
use zier_alpha.Agent.LlmError
use zier_alpha.Prelude.Strings.{from_codes}
use zier_alpha.Prelude.{
  ℕ, String, Text, List, [], ◌∷◌, ◌++◌, map, keep, Option, none, some, Bool, true, false, ◌||◌,
  ◌&&◌, leb, ltb, nat_eq, is_empty, codes, join, ◌>>=◌, if◌then◌else◌,
}
use zier_alpha.Ingress.Types.{ImageAttachment}
use zier_alpha.Agent.LlmError.{ToolCall}
use zier_alpha.Agent.Messages.{Role, system, user, assistant, tool, Message, Usage}
use zier_alpha.Agent.Client.{Outcome, done, failed, Failure, llm, other}
use zier_alpha.Agent.Json.{
  Json, null, boolean, string, number, object, Fields, field, end, get, index, as_str, as_u64,
  as_array, put_option, map_some, array, items,
}
use zier_alpha.Agent.Session.Format.{is_str}
use zier_alpha.Agent.Providers.{
  LlmResponseContent, text, tool_calls, LlmResponse, ToolSchema, or_value, read_usage,
  content_parts, with_tools, str_or, summary_request, summary_text,
}

abbrev pub image_part : ImageAttachment → Json
image_part img = object (
    field "type" (string (codes "image")) (
      field "source"
        (object (
          field "type" (string (codes "base64"))
            (field "media_type" (string img.media_type) (field "data" (string img.body) end))))
        end))

abbrev role_content : String → Json → Json
role_content role content =
    object (field "role" (string (codes role)) (field "content" content end))

unfoldable pub format_tool : ToolSchema → Json
format_tool t = object (
    field "name" (string t.name)
      (field "description" (string t.description) (field "input_schema" t.parameters end)))

-- A system message replaces the prompt.
abbrev pub system_of : Role → Text → Option Text → Option Text
system_of system content old = some content
system_of _ content old = old

-- An HTTP answer: its status, and its body if it is JSON.
pub record HttpAnswer : Type 0 where
  pub status : ℕ
  pub body : Outcome Json

abbrev pub is_success : ℕ → Bool
is_success status = leb 200 status && ltb status 300

module _ (from_str : Text → Option Json) where
  unfoldable pub tool_use : ToolCall → Json
  tool_use call = object (
      field "type" (string (codes "tool_use")) (
        field "id" (string (codes call.id)) (
          field "name" (string (codes call.name))
            (field "input" (or_value (object end) (from_str call.arguments)) end))))

  -- What a message that is no system message becomes; a tool's message without a call becomes nothing.
  unfoldable pub format_message : Message → Option Json
  unfolding tool_use
  format_message m = elim m.role [
    | system ↦ none
    | user ↦ some (
        role_content "user" (
          if is_empty m.images
          then string m.content
          else array (items (content_parts image_part m))))
    | assistant ↦ some (
        role_content "assistant" (elim m.tool_calls [
          | some calls ↦ array (items (map tool_use calls))
          | none ↦ string m.content
        ]))
    | tool ↦
        map_some
          (λ id. role_content "user" (
            array (
              items (
                object (
                  field "type" (string (codes "tool_result")) (
                    field "tool_use_id" (string (codes id))
                      (field "content" (string m.content) end)))
                ∷ []))))
          m.tool_call_id
  ]

  abbrev pub add_message : Option Json → List Json → List Json
  add_message none formatted = formatted
  add_message (some v) formatted = formatted ++ v ∷ []

  -- The loop over the messages, with the system prompt and the messages so far.
  unfoldable pub format_from : List Message → Option Text → List Json → Option Text × List Json
  unfolding format_message
  format_from [] prompt formatted = (prompt, formatted)
  format_from (m ∷ ms) prompt formatted =
      format_from ms (system_of m.role m.content prompt) (add_message (format_message m) formatted)

  unfoldable pub format_messages : List Message → Option Text × List Json
  unfolding format_from
  format_messages messages = format_from messages none []

  -- `streaming` adds the field `stream`.
  unfoldable pub request_body : Text → ℕ → Bool → List Message → Option (List ToolSchema) → Json
  unfolding format_messages format_tool
  request_body model max_tokens streaming messages tools =
      let (prompt, formatted) = format_messages messages in
      let more = if streaming then field "stream" (boolean true) end else end in
      object (
        with_tools format_tool tools (
          put_option "system" (map_some string prompt) (
            field "model" (string model) (
              field "max_tokens" (number max_tokens)
                (field "messages" (array (items formatted)) more)))))

-- The answer with an error status.
unfoldable pub status_error : ℕ → Outcome Json → Failure
status_error status body =
    let message : Text = elim body [
      | failed e ↦ codes "Unknown error"
      | done v ↦ str_or (codes "Unknown error") "message" (index "error" v)
    ] in
    if nat_eq status 429
    then llm (LlmError.rate_limit message)
    else llm (LlmError.provider_error status message)

module _ (to_string : Json → Text) where
  unfoldable pub parse_call : Json → ToolCall
  parse_call c = record {
    id = from_codes (str_or [] "id" c);
    name = from_codes (str_or [] "name" c);
    arguments = to_string (index "input" c);
  }

  -- The calls of the content, or its texts if it has no calls.
  unfoldable pub read_content : List Json → LlmResponseContent
  unfolding parse_call is_str
  read_content content =
      let calls = map parse_call (keep (λ c. is_str (codes "tool_use") (index "type" c)) content) in
      let texts =
        map (str_or [] "text") (keep (λ c. is_str (codes "text") (index "type" c)) content) in
      if is_empty calls then text (join [] texts) else tool_calls calls

  unfoldable pub read_body : Json → Outcome LlmResponse
  unfolding read_content
  read_body body = elim (get "error" body) [
    | some e ↦
        failed (llm (LlmError.provider_error 400 (str_or (codes "Unknown error") "message" e)))
    | none ↦ elim (as_array (index "content" body)) [
      | none ↦ failed (other (codes "No content in response"))
      | some content ↦ done (record {
        content = read_content content;
        usage = read_usage "input_tokens" "output_tokens" body;
      })
    ]
  ]

  unfoldable pub read_answer : HttpAnswer → Outcome LlmResponse
  unfolding read_body status_error
  read_answer answer =
      if is_success answer.status
      then (elim answer.body [ failed e ↦ failed e | done body ↦ read_body body ])
      else failed (status_error answer.status answer.body)

-- `post` sends a body; its failure is one of the connection.
module _ {W : Type 0} (from_str : Text → Option Json) (to_string : Json → Text)
    (post : Json → W → Outcome HttpAnswer × W) (model : Text) (max_tokens : ℕ) where
  unfoldable pub chat : List Message → Option (List ToolSchema) → W → Outcome LlmResponse × W
  unfolding request_body read_answer
  chat messages tools w =
      let (r, w') = post (request_body from_str model max_tokens false messages tools) w in
      (elim r [ failed e ↦ failed e | done answer ↦ read_answer to_string answer ], w')

  unfoldable pub summarize : Text → W → Outcome Text × W
  unfolding chat
  summarize t w = let (r, w') = chat (summary_request t) none w in (summary_text r, w')
