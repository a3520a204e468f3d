-- ===== src/Agent/Providers/OpenAi/Stream.antt =====
-- src/agent/providers.rs, `OpenAIProvider::chat_stream`: the events of the stream and the calls that
-- they build up. The map of the pending calls is an association list.
use zier_alpha.Prelude.Strings.{from_codes}
use zier_alpha.Prelude.{
  ℕ, Text, List, [], ◌∷◌, ◌++◌, map, Option, none, some, true, false, codes, text_eq, nat_eq, leb,
  ◌>>=◌, if◌then◌else◌,
}
use zier_alpha.Agent.LlmError
use zier_alpha.Agent.LlmError.{ToolCall}
use zier_alpha.Agent.Client.{Outcome, done, failed, llm}
use zier_alpha.Agent.Json.{Json, get, as_str, as_u64, as_array}
use zier_alpha.Agent.Session.Format.{filter_map}
use zier_alpha.Agent.Providers.{StreamChunk}
use zier_alpha.Agent.Providers.OpenAi.{first}
use zier_alpha.Agent.Providers.Sse.{NetChunk, read_chunks}

pub record ToolCallBuilder : Type 0 where
  pub id : Option Text
  pub name : Option Text
  pub arguments : Text

abbrev pub Pending : Type 0
Pending = List (ℕ × ToolCallBuilder)

abbrev pub default_builder : ToolCallBuilder
default_builder = record { id = none; name = none; arguments = [] }

-- A change of the builder at an index, `entry(index).or_default()`.
unfoldable pub change_at : ℕ → (ToolCallBuilder → ToolCallBuilder) → Pending → Pending
change_at i f [] = (i, f default_builder) ∷ []
change_at i f ((j, b) ∷ p) = if nat_eq j i then (j, f b) ∷ p else (j, b) ∷ change_at i f p

abbrev or_old {ℓ} : {A : Type ℓ} → Option A → Option A → Option A
or_old none old = old
or_old (some a) old = some a

abbrev pub or_empty : Option Text → Text
or_empty none = []
or_empty (some t) = t

-- What a fragment of a call does to its builder.
unfoldable pub add_fragment : Json → ToolCallBuilder → ToolCallBuilder
add_fragment tc b = record {
  id = or_old (get "id" tc >>= as_str) b.id;
  name = or_old (get "function" tc >>= get "name" >>= as_str) b.name;
  arguments = b.arguments ++ or_empty (get "function" tc >>= get "arguments" >>= as_str);
}

abbrev pub fragment_index : Json → Option ℕ
fragment_index tc = get "index" tc >>= as_u64

unfoldable pub add_at : Json → Option ℕ → Pending → Pending
unfolding change_at add_fragment
add_at tc none p = p
add_at tc (some i) p = change_at i (add_fragment tc) p

unfoldable pub add_fragments : List Json → Pending → Pending
unfolding add_at
add_fragments [] p = p
add_fragments (tc ∷ tcs) p = add_fragments tcs (add_at tc (fragment_index tc) p)

-- A builder with an identifier and a name is a call.
unfoldable pub built : ℕ × ToolCallBuilder → Option (ℕ × ToolCall)
built (i, b) = do
  id ← b.id
  name ← b.name
  some (i, record { id = from_codes id; name = from_codes name; arguments = b.arguments })

unfoldable pub insert_by_index : ℕ × ToolCall → List (ℕ × ToolCall) → List (ℕ × ToolCall)
insert_by_index (i, c) [] = (i, c) ∷ []
insert_by_index (i, c) ((j, e) ∷ rest) =
    if leb i j then (i, c) ∷ (j, e) ∷ rest else (j, e) ∷ insert_by_index (i, c) rest

-- `sort_by_key`
unfoldable pub sort_by_index : List (ℕ × ToolCall) → List (ℕ × ToolCall)
unfolding insert_by_index
sort_by_index [] = []
sort_by_index (c ∷ cs) = insert_by_index c (sort_by_index cs)

unfoldable pub pending_calls : Pending → Option (List ToolCall)
unfolding filter_map built sort_by_index
pending_calls [] = none
pending_calls (b ∷ p) = some (map (λ c. c.1) (sort_by_index (filter_map built (b ∷ p))))

abbrev content_chunk : Option Text → List (Outcome StreamChunk)
content_chunk none = []
content_chunk (some t) = done (record { delta = t; is_done = false; tool_calls = none }) ∷ []

abbrev or_no_fragments : Option (List Json) → List Json
or_no_fragments none = []
or_no_fragments (some tcs) = tcs

unfoldable pub on_delta : Json → Pending → List (Outcome StreamChunk) × Pending
unfolding add_fragments
on_delta delta p = (
  content_chunk (get "content" delta >>= as_str),
  add_fragments (or_no_fragments (get "tool_calls" delta >>= as_array)) p,
)

-- An event with a field `usage` is passed over.
unfoldable pub on_json : Json → Pending → List (Outcome StreamChunk) × Pending
unfolding on_delta
on_json json p = elim (get "usage" json) [
  | some usage ↦ ([], p)
  | none ↦ elim (get "choices" json >>= as_array >>= first >>= get "delta") [
    | none ↦ ([], p)
    | some delta ↦ on_delta delta p
  ]
]

unfoldable pub on_data :
    (Text → Option Json) → Text → Pending → List (Outcome StreamChunk) × Pending
unfolding on_json pending_calls
on_data from_str payload p =
    if text_eq payload (codes "[DONE]")
    then (done (record { delta = []; is_done = true; tool_calls = pending_calls p }) ∷ [], [])
    else elim (from_str payload) [ none ↦ ([], p) | some json ↦ on_json json p ]

-- The answer to the request: an error status with its text, or the stream.
pub data StreamResponse : Type 0 where
  refused : ℕ → Text → StreamResponse
  accepted : List NetChunk → StreamResponse

unfoldable pub chat_stream :
    (Text → Option Json) → (List ℕ → Text) → StreamResponse → Outcome (List (Outcome StreamChunk))
unfolding on_data
chat_stream from_str decode (refused status error_body) =
    if nat_eq status 429
    then failed (llm (LlmError.rate_limit error_body))
    else failed (llm (LlmError.provider_error status error_body))
chat_stream from_str decode (accepted chunks) =
    done (read_chunks (on_data from_str) decode chunks [] [])
