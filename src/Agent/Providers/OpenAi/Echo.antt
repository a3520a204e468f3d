-- ===== src/Agent/Providers/OpenAi/Echo.antt =====
-- src/agent/providers.rs, `OpenAIProvider`: an answer is sent back as the service gave it.
use zier_alpha.Prelude.Strings.{from_codes-codes}
use zier_alpha.Prelude.{
  ◌≡◌, refl, ap, ◌∙◌, String, Text, List, [], ◌∷◌, map, Option, none, some, false, ◌&&◌, not,
  is_empty, ◌>>=◌,
}
use zier_alpha.Agent.LlmError.{ToolCall}
use zier_alpha.Agent.Messages.{Message}
use zier_alpha.Agent.Json.{
  Json, null, string, field, end, get_field, put_option, map_some, get, as_str, as_array, to_list,
  items,
}
use zier_alpha.Agent.Json.Lookup.{get_field-puts, or_else-none, to_list-items}
use zier_alpha.Agent.Providers.{LlmResponseContent, text, tool_calls, str_or, or_value}
use zier_alpha.Agent.Providers.OpenAi.{
  role_name, format_call, format_calls, format_content, format_message, parse_call, message_content,
  is_user, calls_or, format_id,
}

parse_call-format_call : (call : ToolCall) → parse_call (format_call call) ≡ call
unfolding parse_call get_field
parse_call-format_call call =
    λ i. record call { id = from_codes-codes call.id i; name = from_codes-codes call.name i }

parse_calls : (calls : List ToolCall) → map parse_call (map format_call calls) ≡ calls
parse_calls [] = refl
parse_calls (c ∷ cs) = λ i. parse_call-format_call c i ∷ parse_calls cs i

abbrev pub text_or_calls : Text → Option (List ToolCall) → LlmResponseContent
text_or_calls t none = text t
text_or_calls t (some []) = text t
text_or_calls t (some (c ∷ cs)) = tool_calls (c ∷ cs)

-- What a message of the assistant says: its calls, or its text if it has none.
abbrev pub said_by : Message → LlmResponseContent
said_by m = text_or_calls m.content m.tool_calls

abbrev optional : Message → List (String × Option Json)
optional m =
    ("tool_call_id", map_some format_id m.tool_call_id)
    ∷ ("tool_calls", map_some format_calls m.tool_calls)
    ∷ []

finds_calls :
    (m : Message) → get "tool_calls" (format_message m) ≡ map_some format_calls m.tool_calls
unfolding format_message put_option get_field
finds_calls m =
    get_field-puts "tool_calls" (optional m)
      (field "role" (string (role_name m.role)) (field "content" (format_content m) end))
    ∙ or_else-none (map_some format_calls m.tool_calls)

finds_content : (m : Message) → get "content" (format_message m) ≡ some (format_content m)
unfolding format_message put_option get_field
finds_content m =
    get_field-puts "content" (optional m)
      (field "role" (string (role_name m.role)) (field "content" (format_content m) end))

format_content-text :
    (m : Message)
    → (is_user m.role && not (is_empty m.images)) ≡ false
    → format_content m ≡ string m.content
unfolding format_content
format_content-text m h = rw (format_content, h)

abbrev value : Option Json → Json
value none = null
value (some v) = v

read_calls :
    (calls : Option (List ToolCall)) (t : Text)
    → calls_or (text t) (map_some format_calls calls >>= as_array) ≡ text_or_calls t calls
unfolding items to_list
read_calls none t = refl
read_calls (some []) t = refl
read_calls (some (c ∷ cs)) t =
    rw (to_list-items (map format_call cs)) (ap tool_calls (parse_calls (c ∷ cs)))

-- A message that is not one of the user's with images is read, as the message of an answer, as the text
-- or the calls that it was sent with.
pub message_content-format_message :
    (m : Message)
    → (is_user m.role && not (is_empty m.images)) ≡ false
    → message_content (format_message m) ≡ said_by m
unfolding message_content
message_content-format_message m h =
    let content : str_or [] "content" (format_message m) ≡ m.content =
      ap (λ o. or_value [] (as_str (value o))) (finds_content m)
      ∙ ap (λ v. or_value [] (as_str v)) (format_content-text m h) in
    ap (λ t. calls_or (text t) (get "tool_calls" (format_message m) >>= as_array)) content
    ∙ (ap (λ o. calls_or (text m.content) (o >>= as_array)) (finds_calls m)
        ∙ read_calls m.tool_calls m.content)
