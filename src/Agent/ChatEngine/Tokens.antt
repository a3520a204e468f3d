-- ===== src/Agent/ChatEngine/Tokens.antt =====
-- src/agent/chat_engine.rs: what a conversation keeps through all that the engine does.
use zier_alpha.Prelude.Dict.{has}
use zier_alpha.Prelude.{
  ℕ, zero, suc, String, Text, List, [], ◌∷◌, Option, none, some, Bool, true, false, ◌==◌,
  Bool-cases, Option-cases, inl, inr,
}
use zier_alpha.Ingress.Types.{ImageAttachment}
use zier_alpha.Agent.LlmError.{ToolCall}
use zier_alpha.Agent.Messages.{Message, Usage, plain, assistant}
use zier_alpha.Agent.Client.{Outcome-cases, Failure}
use zier_alpha.Agent.Session.{
  Session, add_message, truncate_history, messages_for_llm, mark_memory_flushed,
  add_metadata_to_last_message,
}
use zier_alpha.Agent.SessionManager.{
  CompactionConfig, compact_session, fall_back, try_models, retry, truncates, should_compact,
  should_memory_flush,
}
use zier_alpha.Agent.ToolExecutor.{ToolResult, output, approval_required, tool_failed, unknown_tool}
use zier_alpha.Agent.Action.{Action, lift}
use zier_alpha.Agent.Action.Runs.{Keeps, >>=-Keeps}
use zier_alpha.Agent.ChatEngine.{
  LlmResponseContent, text, tool_calls, SmartReply, Engine, Chat, calls_message, tool_message,
  user_message, result_text, flush_prompt, last_calls, executed_ids,
}
use zier_alpha.Agent.ChatEngine.Turns.{
  push, change, ask, run_tool, record_result, run_calls, respond, handle_response, memory_flush,
  compact_now, flush_if_due, compact_if_due, see, chat_with_images, continue_calls, continue_chat,
}

-- A change of the session that keeps a property of it.
abbrev pub Preserves : (Session → Type 0) → (Session → Session) → Type 0
Preserves P f = (s : Session) → P s → P (f s)

-- What the operations on a session keep, the compaction strategy included.
pub record IsKept {W : Type 0} (e : Engine W) (P : Session → Type 0) : Type 0 where
  pub by_add : (now : ℕ) (m : Message) → Preserves P (add_message e.bpe now m)
  pub by_metadata :
      (n : Option Text) (l : Option ℕ) → Preserves P (add_metadata_to_last_message n l)
  pub by_flush : Preserves P mark_memory_flushed
  pub by_truncate : (n : ℕ) → Preserves P (truncate_history n)
  pub by_compact : (m : Option String) (s : Session) (w : W) → P s → P (e.compact m s w).1

module _ {W : Type 0} (e : Engine W) (P : Session → Type 0) (k : IsKept e P) where
  abbrev On : Chat W → Type 0
  On c = P c.session

  push-Keeps : (m : Message) → Keeps On (push e m)
  unfolding push
  push-Keeps m c h = k.by_add (e.now c.world) m c.session h

  change-Keeps : (f : Session → Session) → Preserves P f → Keeps On (change e f)
  unfolding change
  change-Keeps f p c h = p c.session h

  ask-Keeps : Keeps On (ask e)
  unfolding ask
  ask-Keeps c h = h

  run_tool-Keeps : (call : ToolCall) → Keeps On (run_tool e call)
  unfolding run_tool
  run_tool-Keeps call c h = h

  record_result-Keeps : (call : ToolCall) (r : ToolResult) → Keeps On (record_result e call r)
  unfolding record_result
  record_result-Keeps call (approval_required n refused) = λ c h. h
  record_result-Keeps call (output t) = push-Keeps (tool_message call.id t)
  record_result-Keeps call (tool_failed f) =
      push-Keeps (tool_message call.id (result_text e.display (tool_failed f)))
  record_result-Keeps call (unknown_tool n) =
      push-Keeps (tool_message call.id (result_text e.display (unknown_tool n)))

  run_calls-Keeps : (calls : List ToolCall) → Keeps On (run_calls e calls)
  unfolding run_calls
  run_calls-Keeps [] = λ c h. h
  run_calls-Keeps (call ∷ calls) = >>=-Keeps On (run_tool e call) _ (run_tool-Keeps call) λ r.
      >>=-Keeps On (record_result e call r) _ (record_result-Keeps call r)
        λ _. run_calls-Keeps calls

  respond-Keeps :
      (again : SmartReply → Action (Chat W) (Text × Option Usage))
      → ((next : SmartReply) → Keeps On (again next))
      → (content : LlmResponseContent) → Keeps On (respond e again content)
  unfolding respond
  respond-Keeps again keeps (text t) = λ c h. h
  respond-Keeps again keeps (tool_calls calls) =
      >>=-Keeps On (push e (calls_message [] (some calls))) _ (push-Keeps _) λ _.
        >>=-Keeps On (run_calls e calls) _ (run_calls-Keeps calls) λ _.
          >>=-Keeps On (ask e) _ ask-Keeps
            λ next. >>=-Keeps On (again next) _ (keeps next) λ _ c h. h

  handle_response-Keeps : (fuel : ℕ) (reply : SmartReply) → Keeps On (handle_response e fuel reply)
  unfolding handle_response
  handle_response-Keeps zero reply = λ c h. h
  handle_response-Keeps (suc fuel) reply =
      respond-Keeps (handle_response e fuel) (handle_response-Keeps fuel) reply.content

  memory_flush-Keeps : (fuel : ℕ) → Keeps On (memory_flush e fuel)
  unfolding memory_flush
  memory_flush-Keeps fuel =
      >>=-Keeps On (change e mark_memory_flushed) _ (change-Keeps mark_memory_flushed k.by_flush)
        λ _.
          >>=-Keeps On _ _ (λ c. push-Keeps (user_message (flush_prompt (e.today c.world)) []) c)
            λ _. >>=-Keeps On (ask e) _ ask-Keeps λ reply.
              >>=-Keeps On (handle_response e fuel reply) _ (handle_response-Keeps fuel reply)
                λ (t, usage). push-Keeps (plain assistant t)

  retry-keeps :
      (models : List String) (s : Session) (w : W) → P s → P (retry e.compact models s w).1
  unfolding retry
  retry-keeps [] s w h = h
  retry-keeps (m ∷ models) s w h =
      let now = k.by_compact (some m) s w h in
      elim (Outcome-cases (e.compact (some m) s w).0) [
        | inl (f, bad) ↦
            rw (retry, bad)
              (retry-keeps models (e.compact (some m) s w).1 (e.compact (some m) s w).2 now)
        | inr (u, good) ↦ rw (retry, good) now
      ]

  try_models-keeps :
      (config : CompactionConfig) (s : Session) (w : W)
      → P s
      → P (try_models e.compact config s w).1
  unfolding try_models
  try_models-keeps config s w h = elim (Bool-cases (config.strategy == "truncate")) [
    | inl only ↦ rw (try_models, only) h
    | inr also ↦ rw (try_models, also) (retry-keeps config.fallback_models s w h)
  ]

  fall_back-keeps :
      (config : CompactionConfig) (before : ℕ) (f : Failure) (s : Session) (w : W)
      → P s
      → P (fall_back e.compact config before f s w).1
  unfolding fall_back
  fall_back-keeps config before f s w h =
      let tried = try_models-keeps config s w h in
      let s' = (try_models e.compact config s w).1 in
      elim (Bool-cases (try_models e.compact config s w).0) [
        | inl good ↦ rw (fall_back, good) tried
        | inr bad ↦ elim (Bool-cases (truncates config.strategy)) [
          | inl cut ↦ rw (fall_back, bad, cut) (k.by_truncate config.keep_last s' tried)
          | inr whole ↦ rw (fall_back, bad, whole) tried
        ]
      ]

  compact_session-keeps :
      (config : CompactionConfig) (s : Session) (w : W)
      → P s
      → P (compact_session e.compact config s w).1
  unfolding compact_session
  compact_session-keeps config s w h =
      let now = k.by_compact none s w h in
      elim (Outcome-cases (e.compact none s w).0) [
        | inl (f, bad) ↦
            rw (compact_session, bad)
              (fall_back-keeps config s.token_count f (e.compact none s w).1 (e.compact none s w).2
                now)
        | inr (u, good) ↦ rw (compact_session, good) now
      ]

  compact_now-Keeps : Keeps On (compact_now e)
  unfolding compact_now
  compact_now-Keeps c h = compact_session-keeps e.compaction c.session c.world h

  flush_if_due-Keeps : (fuel : ℕ) → Keeps On (flush_if_due e fuel)
  unfolding flush_if_due
  flush_if_due-Keeps fuel c h =
      elim (Bool-cases (should_memory_flush e.context_window e.reserve_tokens c.session)) [
        | inl due ↦ rw (flush_if_due, due) (memory_flush-Keeps fuel c h)
        | inr early ↦ rw (flush_if_due, early) h
      ]

  compact_if_due-Keeps : Keeps On (compact_if_due e)
  unfolding compact_if_due
  compact_if_due-Keeps c h =
      elim (Bool-cases (should_compact e.bpe e.context_window e.reserve_tokens c.session)) [
        | inl due ↦ rw (compact_if_due, due) (compact_now-Keeps c h)
        | inr early ↦ rw (compact_if_due, early) h
      ]

  see-Keeps :
      (v : Option Bool) (message : Text) (images : List ImageAttachment)
      → Keeps On (see e v message images)
  unfolding see
  see-Keeps none message images c h = h
  see-Keeps (some true) message images c h = h
  see-Keeps (some false) message [] c h = h
  see-Keeps (some false) message (i ∷ is) c h = h

  -- A property of the session that the operations keep is kept by a turn of the conversation, also by
  -- one that fails.
  pub chat_with_images-Keeps :
      (fuel : ℕ) (message : Text) (images : List ImageAttachment)
      → Keeps On (chat_with_images e fuel message images)
  unfolding chat_with_images
  chat_with_images-Keeps fuel message images =
      >>=-Keeps On (lift e.supports_vision) _ (λ c h. h)
        λ v. >>=-Keeps On (see e v message images) _ (see-Keeps v message images) λ (seen, kept).
          >>=-Keeps On (push e (user_message seen kept)) _ (push-Keeps (user_message seen kept))
            λ _. >>=-Keeps On (flush_if_due e fuel) _ (flush_if_due-Keeps fuel) λ _.
              >>=-Keeps On (compact_if_due e) _ compact_if_due-Keeps λ _.
                >>=-Keeps On (ask e) _ ask-Keeps λ reply.
                  >>=-Keeps On (handle_response e fuel reply) _ (handle_response-Keeps fuel reply)
                    λ (t, more).
                      >>=-Keeps On (push e (plain assistant t)) _ (push-Keeps (plain assistant t))
                        λ _.
                          let meta =
                            add_metadata_to_last_message (some reply.used_model)
                              (some reply.latency_ms) in
                          >>=-Keeps On (change e meta) _
                            (change-Keeps meta
                              (k.by_metadata (some reply.used_model) (some reply.latency_ms)))
                            λ _ c h. h

  continue_calls-Keeps :
      (executed : List String) (calls : List ToolCall) → Keeps On (continue_calls e executed calls)
  unfolding continue_calls
  continue_calls-Keeps executed [] = λ c h. h
  continue_calls-Keeps executed (call ∷ calls) =
      let rest = continue_calls-Keeps executed calls in
      elim (Bool-cases (has call.id executed)) [
        | inl is_answered ↦ rw (continue_calls, is_answered) rest
        | inr is_open ↦
            rw (continue_calls, is_open)
              (>>=-Keeps On (run_tool e call) _ (run_tool-Keeps call)
                λ r. >>=-Keeps On (record_result e call r) _ (record_result-Keeps call r) λ _. rest)
      ]

  pub continue_chat-Keeps : (fuel : ℕ) → Keeps On (continue_chat e fuel)
  unfolding continue_chat
  continue_chat-Keeps fuel c h = elim (Option-cases (last_calls (messages_for_llm c.session))) [
    | inl nothing ↦ rw (continue_chat, nothing) h
    | inr ((calls, later), found) ↦
        rw (continue_chat, found)
          (>>=-Keeps On (continue_calls e (executed_ids later) calls) _
            (continue_calls-Keeps (executed_ids later) calls)
            (λ _. >>=-Keeps On (ask e) _ ask-Keeps λ reply. handle_response-Keeps fuel reply) c h)
  ]
