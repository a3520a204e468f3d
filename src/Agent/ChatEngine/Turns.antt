-- ===== src/Agent/ChatEngine/Turns.antt =====
-- src/agent/chat_engine.rs: the turns of a conversation without streaming, and
-- src/capabilities/vision.rs: the description of an image for a model that cannot see.
use zier_alpha.Prelude.Dict.{has}
use zier_alpha.Prelude.{
  ℕ, zero, suc, ◌+◌, String, Text, List, [], ◌∷◌, ◌++◌, Option, none, some, Bool, false, codes,
  decimal, if◌then◌else◌,
}
use zier_alpha.Ingress.Types.{ImageAttachment}
use zier_alpha.Agent.LlmError.{LlmError, ToolCall}
use zier_alpha.Agent.Client.{llm, other, Outcome, done, failed}
use zier_alpha.Agent.Messages.{Message, Usage, assistant, plain}
use zier_alpha.Agent.Session.{
  Session, add_message, add_metadata_to_last_message, messages_for_llm, mark_memory_flushed,
}
use zier_alpha.Agent.SessionManager.{should_compact, should_memory_flush, compact_session}
use zier_alpha.Agent.ToolExecutor.{
  ToolResult, output, approval_required, tool_failed, unknown_tool, execute_tool,
}
use zier_alpha.Agent.Action.{
  replied, raised, out_of_fuel, Action, pure, raise, lift, from_outcome, ◌>>=◌, ◌>>◌,
}
use zier_alpha.Agent.ChatEngine.{
  LlmResponseContent, text, tool_calls, SmartReply, StreamChunk, Engine, Chat, calls_message,
  tool_message, user_message, total_usage, result_text, flush_prompt, last_calls, executed_ids,
  newline,
}

module _ {W : Type 0} (e : Engine W) where
  -- `session().write().await.add_message(…)`
  unfoldable pub push : Message → Action (Chat W) (Unit {0})
  push m c = (replied tt, record c { session = add_message e.bpe (e.now c.world) m c.session })

  -- A change of the session.
  unfoldable pub change : (Session → Session) → Action (Chat W) (Unit {0})
  change f c = (replied tt, record c { session = f c.session })

  -- The messages of the session, sent to the client.
  unfoldable pub ask : Action (Chat W) SmartReply
  ask c =
      let (r, w) = e.client_chat (messages_for_llm c.session) c.world in
      (from_outcome r, record c { world = w })

  unfoldable pub run_tool : ToolCall → Action (Chat W) ToolResult
  run_tool call c =
      let (r, left, w) =
        execute_tool e.replace_ci e.suspicious e.tools_config e.tools call c.approved c.world in
      (replied r, record c { approved = left; world = w })

  -- A refused call ends the loop with an error; any other result goes into the session.
  unfoldable pub record_result : ToolCall → ToolResult → Action (Chat W) (Unit {0})
  record_result call (approval_required name refused) =
      raise (llm (LlmError.approval_required name refused))
  record_result call (output t) = push (tool_message call.id t)
  record_result call (tool_failed f) =
      push (tool_message call.id (result_text e.display (tool_failed f)))
  record_result call (unknown_tool n) =
      push (tool_message call.id (result_text e.display (unknown_tool n)))

  unfoldable pub run_calls : List ToolCall → Action (Chat W) (Unit {0})
  run_calls [] = pure tt
  run_calls (call ∷ calls) = do r ← run_tool call; record_result call r; run_calls calls

  -- The body of `handle_response_internal`, which calls itself for the next answer.
  unfoldable pub respond :
      (SmartReply → Action (Chat W) (Text × Option Usage))
      → LlmResponseContent
      → Action (Chat W) (Text × Option Usage)
  respond again (text t) = pure (t, none)
  respond again (tool_calls calls) = do
    push (calls_message [] (some calls))
    run_calls calls
    next ← ask
    (t, next_usage) ← again next
    pure (t, total_usage next.usage next_usage)

  unfoldable pub handle_response : ℕ → SmartReply → Action (Chat W) (Text × Option Usage)
  unfolding respond
  handle_response zero reply = λ c. (out_of_fuel, c)
  handle_response (suc fuel) reply = respond (handle_response fuel) reply.content

  unfoldable pub memory_flush : ℕ → Action (Chat W) (Unit {0})
  memory_flush fuel = do
    change mark_memory_flushed
    (λ c. push (user_message (flush_prompt (e.today c.world)) []) c)
    reply ← ask
    (t, usage) ← handle_response fuel reply
    push (plain assistant t)

  unfoldable pub compact_now : Action (Chat W) (Unit {0})
  compact_now c =
      let (r, s, w) = compact_session e.compact e.compaction c.session c.world in
      (elim r [ done _ ↦ replied tt | failed f ↦ raised f ], record c { session = s; world = w })

  unfoldable pub flush_if_due : ℕ → Action (Chat W) (Unit {0})
  flush_if_due fuel c =
      if should_memory_flush e.context_window e.reserve_tokens c.session
      then memory_flush fuel c
      else (replied tt, c)

  unfoldable pub compact_if_due : Action (Chat W) (Unit {0})
  compact_if_due c =
      if should_compact e.bpe e.context_window e.reserve_tokens c.session
      then compact_now c
      else (replied tt, c)

  -- `VisionService::describe_image`
  unfoldable pub describe_image : ImageAttachment → W → Outcome Text × W
  describe_image image w =
      let (r, w') = e.vision_chat (user_message e.fallback_prompt (image ∷ []) ∷ []) w in
      (
        elim r [
          | failed f ↦ failed f
          | done reply ↦ elim reply.content [
            | text t ↦ done t
            | tool_calls calls ↦
                failed (other (codes "Unexpected response from vision model (received tool calls)"))
          ]
        ],
        w',
      )

  abbrev describe_line : ℕ → Outcome Text → Text
  describe_line i (done description) =
      newline
      ++ (newline
          ++ (codes "[Image "
              ++ (decimal (i + 1) ++ (codes " Description: " ++ (description ++ codes "]")))))
  describe_line i (failed f) =
      newline
      ++ (newline
          ++ (codes "[Image "
              ++ (decimal (i + 1) ++ (codes " processing failed: " ++ (e.display f ++ codes "]")))))

  -- The loop over the images, from index `i` on.
  unfoldable pub describe_images : ℕ → List ImageAttachment → Text → W → Text × W
  describe_images i [] content w = (content, w)
  describe_images i (image ∷ images) content w =
      let (r, w') = describe_image image w in
      describe_images (i + 1) images (content ++ describe_line i r) w'

  -- The content and the images of the user's message, for a model with or without vision.
  unfoldable pub see :
      Option Bool → Text → List ImageAttachment → Action (Chat W) (Text × List ImageAttachment)
  see (some false) message (image ∷ images) c =
      let (content, w) = describe_images 0 (image ∷ images) message c.world in
      (replied (content, []), record c { world = w })
  see _ message images c = (replied (message, images), c)

  unfoldable pub chat_with_images :
      ℕ → Text → List ImageAttachment → Action (Chat W) (Text × Option Usage)
  chat_with_images fuel message images = do
    supports_vision ← lift e.supports_vision
    (content, kept) ← see supports_vision message images
    push (user_message content kept)
    flush_if_due fuel
    compact_if_due
    reply ← ask
    (t, follow_up) ← handle_response fuel reply
    push (plain assistant t)
    change (add_metadata_to_last_message (some reply.used_model) (some reply.latency_ms))
    pure (t, total_usage reply.usage follow_up)

  -- `continue_chat` over the calls that no message has answered.
  unfoldable pub continue_calls : List String → List ToolCall → Action (Chat W) (Unit {0})
  continue_calls executed [] = pure tt
  continue_calls executed (call ∷ calls) =
      let rest = continue_calls executed calls in
      if has call.id executed then rest else (do r ← run_tool call; record_result call r; rest)

  unfoldable pub continue_chat : ℕ → Action (Chat W) (Text × Option Usage)
  continue_chat fuel c = elim (last_calls (messages_for_llm c.session)) [
    | none ↦ (raised (other (codes "Nothing to continue")), c)
    | some (calls, later) ↦
        (do continue_calls (executed_ids later) calls; reply ← ask; handle_response fuel reply) c
  ]

  unfoldable pub finish_chat_stream : Text → Action (Chat W) (Unit {0})
  finish_chat_stream response = push (plain assistant response)

  unfoldable pub provide_tool_result : String → Text → Action (Chat W) (Unit {0})
  provide_tool_result call_id result = push (tool_message call_id result)

  -- The chunks of the client's stream for the messages of the session.
  unfoldable pub ask_stream : Action (Chat W) (List (Outcome StreamChunk))
  ask_stream c =
      let (r, w) = e.client_stream (messages_for_llm c.session) c.world in
      (from_outcome r, record c { world = w })

  -- `chat_stream_with_images`; `chat_stream` has no images.
  unfoldable pub chat_stream_with_images :
      ℕ → Text → List ImageAttachment → Action (Chat W) (List (Outcome StreamChunk))
  chat_stream_with_images fuel message images = do
    push (user_message message images)
    flush_if_due fuel
    compact_if_due
    ask_stream
