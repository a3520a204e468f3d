-- ===== src/Agent/Providers/Anthropic/Stream.antt =====
-- src/agent/providers.rs, `AnthropicProvider::chat_stream`: the events of the stream and the calls that
-- they build up.
use zier_alpha.Agent.LlmError
use zier_alpha.Prelude.Strings.{from_codes}
use zier_alpha.Prelude.{
  ℕ, Text, List, [], ◌∷◌, ◌++◌, Option, none, some, true, false, is_empty, codes, text_eq, nat_eq,
  if◌then◌else◌,
}
use zier_alpha.Agent.LlmError.{ToolCall}
use zier_alpha.Agent.Client.{Outcome, done, failed, llm, other}
use zier_alpha.Agent.Json.{Json, get, index, as_str}
use zier_alpha.Agent.Session.Format.{is_str}
use zier_alpha.Agent.Providers.{StreamChunk, str_or}
use zier_alpha.Agent.Providers.OpenAi.Stream.{StreamResponse, refused, accepted}
use zier_alpha.Agent.Providers.Sse.{read_chunks}

pub record Blocks : Type 0 where
  pub pending_tool_calls : List ToolCall
  pub current_tool_id : Option Text
  pub current_tool_name : Option Text
  pub current_tool_input : Text

abbrev pub no_blocks : Blocks
no_blocks = record {
  pending_tool_calls = [];
  current_tool_id = none;
  current_tool_name = none;
  current_tool_input = [];
}

-- The chunk that ends a message.
unfoldable pub done_chunk : Blocks → Outcome StreamChunk
done_chunk b = done (record {
  delta = [];
  is_done = true;
  tool_calls = if is_empty b.pending_tool_calls then none else some b.pending_tool_calls;
})

unfoldable pub on_block_delta : Json → Blocks → List (Outcome StreamChunk) × Blocks
on_block_delta json b = elim (as_str (index "text" (index "delta" json))) [
  | some t ↦ (done (record { delta = t; is_done = false; tool_calls = none }) ∷ [], b)
  | none ↦ elim (as_str (index "partial_json" (index "delta" json))) [
    | none ↦ ([], b)
    | some part ↦ ([], record b { current_tool_input = b.current_tool_input ++ part })
  ]
]

unfoldable pub on_block_start : Json → Blocks → Blocks
on_block_start json b = elim (get "content_block" json) [
  | none ↦ b
  | some block ↦
      if is_str (codes "tool_use") (index "type" block)
      then record b {
        current_tool_id = as_str (index "id" block);
        current_tool_name = as_str (index "name" block);
        current_tool_input = [];
      }
      else b
]

-- Both options are taken, also where one of them is missing.
unfoldable pub finish_block : Option Text → Option Text → Blocks → Blocks
finish_block (some id) (some name) b = record b {
  pending_tool_calls =
      b.pending_tool_calls
      ++ record { id = from_codes id; name = from_codes name; arguments = b.current_tool_input }
        ∷ [];
  current_tool_input = [];
}
finish_block (some id) none b = b
finish_block none name b = b

unfoldable pub on_block_stop : Blocks → Blocks
unfolding finish_block
on_block_stop b =
    finish_block b.current_tool_id b.current_tool_name
      (record b { current_tool_id = none; current_tool_name = none })

unfoldable pub on_json : Json → Blocks → List (Outcome StreamChunk) × Blocks
unfolding done_chunk on_block_delta on_block_start on_block_stop
on_json json b =
    let event_type = str_or [] "type" json in
    if text_eq event_type (codes "content_block_delta")
    then on_block_delta json b
    else if text_eq event_type (codes "content_block_start")
    then ([], on_block_start json b)
    else if text_eq event_type (codes "content_block_stop")
    then ([], on_block_stop b)
    else if text_eq event_type (codes "message_stop")
    then (done_chunk b ∷ [], b)
    else if text_eq event_type (codes "error")
    then (
      failed (
            other (
              codes "Anthropic error: "
              ++ str_or (codes "Unknown error") "message" (index "error" json)))
          ∷ [],
      b,
    )
    else ([], b)

unfoldable pub on_data : (Text → Option Json) → Text → Blocks → List (Outcome StreamChunk) × Blocks
unfolding on_json
on_data from_str payload b =
    if text_eq payload (codes "[DONE]")
    then (done_chunk b ∷ [], b)
    else elim (from_str payload) [ none ↦ ([], b) | some json ↦ on_json json b ]

unfoldable pub chat_stream :
    (Text → Option Json) → (List ℕ → Text) → StreamResponse → Outcome (List (Outcome StreamChunk))
unfolding on_data
chat_stream from_str decode (refused status error_body) =
    if nat_eq status 429
    then failed (llm (LlmError.rate_limit error_body))
    else failed (llm (LlmError.provider_error status error_body))
chat_stream from_str decode (accepted chunks) =
    done (read_chunks (on_data from_str) decode chunks [] no_blocks)
