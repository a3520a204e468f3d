-- ===== src/Agent/Session/Format.antt =====
-- src/agent/session.rs, `format_message_entry` and `parse_pi_message`: a message as JSON and back.
-- What serde derives for `MessageUsage` is a parameter.
use zier_alpha.Prelude.Strings.{from_codes}
use zier_alpha.Prelude.{
  ℕ, String, Text, List, [], ◌∷◌, ◌++◌, map, Option, none, some, Bool, false, is_empty, length,
  drop, codes, starts_with, split_once, text_eq, join, ◌>>=◌, if◌then◌else◌,
}
use zier_alpha.Ingress.Types.{ImageAttachment}
use zier_alpha.Agent.LlmError.{ToolCall}
use zier_alpha.Agent.Messages.{Role, user, assistant, system, tool, MessageUsage, SessionMessage}
use zier_alpha.Agent.Json.{
  Json, null, number, string, array, object, Fields, end, field, items, put, put_option, map_some,
  get, index, as_str, as_u64, as_array,
}

-- What serde and chrono do; a value that cannot be written is `none`.
pub record Serde : Type 0 where
  pub usage_to_value : MessageUsage → Option Json
  pub usage_from_value : Json → Option MessageUsage
  pub to_string : Json → Text
  pub from_str : Text → Option Json
  pub to_rfc3339 : ℕ → Text
  pub parse_from_rfc3339 : Text → Option ℕ

abbrev pub pi_role : Role → Text
pi_role user = codes "user"
pi_role assistant = codes "assistant"
pi_role system = codes "system"
pi_role tool = codes "toolResult"

abbrev pub text_item : Text → Json
text_item t = object (field "type" (string (codes "text")) (field "text" (string t) end))

abbrev pub image_item : ImageAttachment → Json
image_item img =
    let url = codes "data:" ++ (img.media_type ++ (codes ";base64," ++ img.body)) in
    object (
      field "type" (string (codes "image_url"))
        (field "image_url" (object (field "url" (string url) end)) end))

-- The content array: the text, unless it is empty, and the images.
unfoldable pub format_content : Text → List ImageAttachment → List Json
format_content content images =
    (if is_empty content then [] else text_item content ∷ []) ++ map image_item images

abbrev pub call_item : ToolCall → Json
call_item call = object (
    field "id" (string (codes call.id))
      (field "name" (string (codes call.name)) (field "arguments" (string call.arguments) end)))

abbrev pub format_calls : List ToolCall → Json
format_calls calls = array (items (map call_item calls))

abbrev pub format_id : String → Json
format_id id = string (codes id)

module _ (d : Serde) where
  abbrev pub format_usage : MessageUsage → Json
  format_usage u = elim (d.usage_to_value u) [ some v ↦ v | none ↦ null ]

  unfoldable pub format_message : SessionMessage → Fields
  unfolding put put_option format_content
  format_message sm = put "timestamp" (number sm.timestamp) (
      put_option "latencyMs" (map_some number sm.latency_ms) (
        put_option "modelConfigName" (map_some string sm.model_config_name) (
          put_option "stopReason" (map_some string sm.stop_reason) (
            put_option "usage" (map_some format_usage sm.usage) (
              put_option "api" (map_some string sm.api) (
                put_option "model" (map_some string sm.model) (
                  put_option "provider" (map_some string sm.provider) (
                    put_option "toolCallId" (map_some format_id sm.message.tool_call_id) (
                      put_option "toolCalls" (map_some format_calls sm.message.tool_calls) (
                        field "role" (string (pi_role sm.message.role)) (
                          field "content"
                            (array (items (format_content sm.message.content sm.message.images)))
                            end)))))))))))

  abbrev pub format_message_entry : SessionMessage → Json
  format_message_entry sm =
      object
        (field "type" (string (codes "message")) (field "message" (object (format_message sm)) end))

abbrev pub option_or {ℓ} : {A : Type ℓ} → A → Option A → A
option_or a none = a
option_or a (some b) = b

-- The test `value.as_str() == Some(t)`.
unfoldable pub is_str : Text → Json → Bool
is_str t v = elim (as_str v) [ some s ↦ text_eq s t | none ↦ false ]

unfoldable pub parse_role : Text → Option Role
parse_role t =
    if text_eq t (codes "user")
    then some user
    else if text_eq t (codes "assistant")
    then some assistant
    else if text_eq t (codes "system")
    then some system
    else if text_eq t (codes "toolResult")
    then some tool
    else if text_eq t (codes "tool")
    then some tool
    else none

unfoldable pub strip_prefix : Text → Text → Option Text
strip_prefix p t = if starts_with p t then some (drop (length p) t) else none

unfoldable pub strip_suffix : Text → Text → Option Text
strip_suffix p [] = if is_empty p then some [] else none
strip_suffix p (c ∷ t) =
    let rest = strip_suffix p t in
    if text_eq (c ∷ t) p then some [] else elim rest [ none ↦ none | some q ↦ some (c ∷ q) ]

unfoldable pub media_type : Text → Text
unfolding strip_prefix strip_suffix
media_type header =
    option_or (codes "application/octet-stream")
      (strip_prefix (codes "data:") header >>= strip_suffix (codes ";base64"))

-- The image of a `data:` URL with a comma.
unfoldable pub image_of_url : Text → Option ImageAttachment
unfolding media_type
image_of_url url = do
  (header, body) ← split_once 44 url
  some (record { media_type = media_type header; body = body })

unfoldable pub parse_image : Json → Option ImageAttachment
unfolding is_str image_of_url
parse_image item =
    if is_str (codes "image_url") (index "type" item)
    then (do url_obj ← get "image_url" item; url ← as_str (index "url" url_obj); image_of_url url)
    else none

unfoldable pub parse_text : Json → Option Text
unfolding is_str
parse_text item =
    if is_str (codes "text") (index "type" item) then as_str (index "text" item) else none

unfoldable pub filter_map {ℓ κ} : {A : Type ℓ} {B : Type κ} → (A → Option B) → List A → List B
filter_map f [] = []
filter_map f (x ∷ xs) = let rest = filter_map f xs in elim (f x) [ some y ↦ y ∷ rest | none ↦ rest ]

unfoldable pub parse_images : Json → List ImageAttachment
unfolding filter_map parse_image
parse_images content = elim (as_array content) [ some arr ↦ filter_map parse_image arr | none ↦ [] ]

unfoldable pub parse_content : Json → Text
unfolding filter_map parse_text
parse_content content = elim (as_array content) [
  | some arr ↦ join [] (filter_map parse_text arr)
  | none ↦ option_or [] (as_str content)
]

unfoldable pub parse_call : Json → Option ToolCall
parse_call v = do
  id ← as_str (index "id" v)
  name ← as_str (index "name" v)
  some (record {
    id = from_codes id;
    name = from_codes name;
    arguments = option_or (codes "{}") (as_str (index "arguments" v));
  })

unfoldable pub parse_calls : Json → Option (List ToolCall)
unfolding filter_map parse_call
parse_calls v = do arr ← as_array v; some (filter_map parse_call arr)

-- The message of a role that is known.
unfoldable pub parsed_message : Serde → Role → Json → SessionMessage
unfolding parse_images parse_content parse_calls
parsed_message d role msg = record {
  message = record {
    role = role;
    content = parse_content (index "content" msg);
    tool_calls = parse_calls (index "toolCalls" msg);
    tool_call_id = map_some from_codes (as_str (index "toolCallId" msg));
    images = parse_images (index "content" msg);
  };
  provider = as_str (index "provider" msg);
  model = as_str (index "model" msg);
  api = as_str (index "api" msg);
  usage = d.usage_from_value (index "usage" msg);
  stop_reason = as_str (index "stopReason" msg);
  timestamp = option_or 0 (as_u64 (index "timestamp" msg));
  model_config_name = get "modelConfigName" msg >>= as_str;
  latency_ms = get "latencyMs" msg >>= as_u64;
}

unfoldable pub parse_pi_message : Serde → Json → Option SessionMessage
unfolding parse_role parsed_message
parse_pi_message d msg = do
  name ← as_str (index "role" msg)
  role ← parse_role name
  some (parsed_message d role msg)
