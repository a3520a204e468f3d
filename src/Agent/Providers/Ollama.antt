-- ===== src/Agent/Providers/Ollama.antt =====
-- src/agent/providers.rs, `OllamaProvider`, whose stream is one JSON value on each line.
use zier_alpha.Prelude.{
  ℕ, zero, suc, Text, List, [], ◌∷◌, ◌++◌, map, Option, none, some, Bool, false, is_empty, length,
  codes, split_once, if◌then◌else◌,
}
use zier_alpha.Agent.Messages.{Role, system, user, assistant, tool, Message}
use zier_alpha.Agent.Client.{Outcome, done, failed, other}
use zier_alpha.Agent.Json.{Json, boolean, string, object, field, end, array, items, get, index}
use zier_alpha.Agent.Providers.{
  LlmResponse, StreamChunk, text, or_value, str_or, u64_or_0, summary_request, summary_text,
}
use zier_alpha.Agent.Providers.Sse.{NetChunk, bytes, net_error}

-- The results of tools are sent as messages of the user.
abbrev role_name : Role → Text
role_name system = codes "system"
role_name user = codes "user"
role_name assistant = codes "assistant"
role_name tool = codes "user"

unfoldable pub format_message : Message → Json
format_message m =
    object (field "role" (string (role_name m.role)) (field "content" (string m.content) end))

unfoldable pub request_body : Text → Bool → List Message → Json
unfolding format_message
request_body model streaming messages = object (
    field "model" (string model) (
      field "messages" (array (items (map format_message messages)))
        (field "stream" (boolean streaming) end)))

unfoldable pub read_response : Json → LlmResponse
read_response body = record {
  content = text (str_or [] "content" (index "message" body));
  usage = elim (get "prompt_eval_count" body) [
    | none ↦ none
    | some n ↦ some (record {
      input_tokens = u64_or_0 "prompt_eval_count" body;
      output_tokens = u64_or_0 "eval_count" body;
    })
  ];
}

abbrev as_bool : Json → Option Bool
as_bool (boolean b) = some b
as_bool _ = none

-- A complete line of the stream: nothing for an empty one and for one that is no JSON.
unfoldable pub on_line : (Text → Option Json) → Text → List (Outcome StreamChunk)
on_line from_str line = if is_empty line then [] else elim (from_str line) [
  | none ↦ []
  | some json ↦
      done (record {
        delta = str_or [] "content" (index "message" json);
        is_done = or_value false (as_bool (index "done" json));
        tool_calls = none;
      })
      ∷ []
]

-- The complete lines of the buffer, and what is left in it. Every line takes at least one character.
unfoldable pub take_lines : ℕ → Text → List Text × Text
take_lines zero buffer = ([], buffer)
take_lines (suc fuel) buffer = elim (split_once 10 buffer) [
  | none ↦ ([], buffer)
  | some (line, rest) ↦ let (found, left) = take_lines fuel rest in (line ∷ found, left)
]

unfoldable pub on_lines : (Text → Option Json) → List Text → List (Outcome StreamChunk)
unfolding on_line
on_lines from_str [] = []
on_lines from_str (line ∷ rest) = on_line from_str line ++ on_lines from_str rest

-- The loop over the chunks of bytes.
unfoldable pub read_chunks :
    (Text → Option Json) → (List ℕ → Text) → List NetChunk → Text → List (Outcome StreamChunk)
unfolding on_lines take_lines
read_chunks from_str decode [] buffer = []
read_chunks from_str decode (net_error e ∷ chunks) buffer =
    failed (other (codes "Stream error: " ++ e)) ∷ []
read_chunks from_str decode (bytes b ∷ chunks) buffer =
    let longer = buffer ++ decode b in
    let (found, left) = take_lines (length longer) longer in
    on_lines from_str found ++ read_chunks from_str decode chunks left

-- `post` sends a body and gives the JSON of the answer.
module _ {W : Type 0} (post : Json → W → Outcome Json × W) (model : Text) where
  unfoldable pub chat : List Message → W → Outcome LlmResponse × W
  unfolding request_body read_response
  chat messages w =
      let (r, w') = post (request_body model false messages) w in
      (elim r [ failed e ↦ failed e | done body ↦ done (read_response body) ], w')

  unfoldable pub summarize : Text → W → Outcome Text × W
  unfolding chat
  summarize t w = let (r, w') = chat (summary_request t) w in (summary_text r, w')
