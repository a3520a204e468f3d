-- ===== src/Agent/ChatEngine/Ending.antt =====
-- src/agent/chat_engine.rs: a turn of the conversation ends when the model stops calling tools.
use zier_alpha.Prelude.Dict.{has}
use zier_alpha.Prelude.{
  ℕ, ◌+◌, ◌≤◌, ◌≢◌, String, Text, List, [], ◌∷◌, Option, none, some, Bool, true, false, ◌==◌, arith,
  Bool-cases, Option-cases, inl, inr,
}
use zier_alpha.Ingress.Types.{ImageAttachment}
use zier_alpha.Agent.LlmError.{ToolCall}
use zier_alpha.Agent.Messages.{plain, assistant}
use zier_alpha.Agent.Client.{Outcome, Outcome-cases, Failure}
use zier_alpha.Agent.Session.{Session, messages_for_llm}
use zier_alpha.Agent.SessionManager.{
  CompactionConfig, compact_session, fall_back, try_models, retry, truncates, should_compact,
  should_memory_flush,
}
use zier_alpha.Agent.Action.{out_of_fuel, lift}
use zier_alpha.Agent.Action.Runs.{Ends, >>=-Ends}
use zier_alpha.Agent.ChatEngine.{Engine, Chat, user_message, total_usage, last_calls, executed_ids}
use zier_alpha.Agent.ChatEngine.Turns.{
  push, change, run_tool, record_result, handle_response, compact_now, flush_if_due, compact_if_due,
  describe_image, describe_images, see, chat_with_images, continue_calls, continue_chat,
}
use zier_alpha.Agent.ChatEngine.Fuel.{
  IsBounded, Has, pure-Ends, push-Ends, change-Ends, run_tool-Ends, record_result-Ends,
  from_outcome-ne, ask-then, memory_flush-Ends, handle_response-Ends,
}

module _ {W : Type 0} (e : Engine W) (left : W → ℕ) (k : IsBounded e left) where
  left-retry :
      (models : List String) (s : Session) (w : W) → left (retry e.compact models s w).2 ≤ left w
  unfolding retry
  left-retry [] s w = omega arith
  left-retry (m ∷ models) s w =
      let now = k.by_compact (some m) s w in
      let later = left-retry models (e.compact (some m) s w).1 (e.compact (some m) s w).2 in
      elim (Outcome-cases (e.compact (some m) s w).0) [
        | inl (f, bad) ↦ rw (retry, bad) (omega (arith, now, later))
        | inr (u, good) ↦ rw (retry, good) now
      ]

  left-try_models :
      (config : CompactionConfig) (s : Session) (w : W)
      → left (try_models e.compact config s w).2 ≤ left w
  unfolding try_models
  left-try_models config s w = elim (Bool-cases (config.strategy == "truncate")) [
    | inl only ↦ rw (try_models, only) (omega arith)
    | inr also ↦ rw (try_models, also) (left-retry config.fallback_models s w)
  ]

  left-fall_back :
      (config : CompactionConfig) (before : ℕ) (f : Failure) (s : Session) (w : W)
      → left (fall_back e.compact config before f s w).2 ≤ left w
  unfolding fall_back
  left-fall_back config before f s w =
      let tried = left-try_models config s w in
      elim (Bool-cases (try_models e.compact config s w).0) [
        | inl good ↦ rw (fall_back, good) tried
        | inr bad ↦ elim (Bool-cases (truncates config.strategy)) [
          | inl cut ↦ rw (fall_back, bad, cut) tried
          | inr whole ↦ rw (fall_back, bad, whole) tried
        ]
      ]

  left-compact_session :
      (config : CompactionConfig) (s : Session) (w : W)
      → left (compact_session e.compact config s w).2 ≤ left w
  unfolding compact_session
  left-compact_session config s w =
      let now = k.by_compact none s w in
      let s' = (e.compact none s w).1 in
      let w' = (e.compact none s w).2 in
      elim (Outcome-cases (e.compact none s w).0) [
        | inl (f, bad) ↦
            rw (compact_session, bad)
              (omega (arith, now, left-fall_back config s.token_count f s' w'))
        | inr (u, good) ↦ rw (compact_session, good) now
      ]

  compact_now-Ends : (n : ℕ) → Ends (Has e left k n) (compact_now e)
  unfolding compact_now
  compact_now-Ends n c h =
      let fewer : left (compact_now e c).1.world ≤ n =
        omega (arith, left-compact_session e.compaction c.session c.world) in
      elim (Outcome-cases (compact_session e.compact e.compaction c.session c.world).0) [
        | inl (f, bad) ↦ ((λ same. absurd (ground arith)), fewer)
        | inr (u, good) ↦ ((λ same. absurd (ground arith)), fewer)
      ]

  flush_if_due-Ends : (fuel n : ℕ) → n + 2 ≤ fuel → Ends (Has e left k n) (flush_if_due e fuel)
  unfolding flush_if_due
  flush_if_due-Ends fuel n enough c h =
      elim (Bool-cases (should_memory_flush e.context_window e.reserve_tokens c.session)) [
        | inl due ↦ rw (flush_if_due, due) (memory_flush-Ends e left k fuel n enough c h)
        | inr early ↦ rw (flush_if_due, early) (pure-Ends e left k n tt c h)
      ]

  compact_if_due-Ends : (n : ℕ) → Ends (Has e left k n) (compact_if_due e)
  unfolding compact_if_due
  compact_if_due-Ends n c h =
      elim (Bool-cases (should_compact e.bpe e.context_window e.reserve_tokens c.session)) [
        | inl due ↦ rw (compact_if_due, due) (compact_now-Ends n c h)
        | inr early ↦ rw (compact_if_due, early) (pure-Ends e left k n tt c h)
      ]

  left-describe_images :
      (i : ℕ) (images : List ImageAttachment) (content : Text) (w : W)
      → left (describe_images e i images content w).1 ≤ left w
  unfolding describe_images describe_image
  left-describe_images i [] content w = omega arith
  left-describe_images i (image ∷ images) content w =
      let asked = user_message e.fallback_prompt (image ∷ []) ∷ [] in
      omega (
        arith,
        k.by_vision asked w,
        left-describe_images (i + 1) images _ (e.vision_chat asked w).1,
      )

  see-Ends :
      (n : ℕ) (v : Option Bool) (message : Text) (images : List ImageAttachment)
      → Ends (Has e left k n) (see e v message images)
  unfolding see
  see-Ends n none message images c h = ((λ same. absurd (cc)), h)
  see-Ends n (some true) message images c h = ((λ same. absurd (cc)), h)
  see-Ends n (some false) message [] c h = ((λ same. absurd (cc)), h)
  see-Ends n (some false) message (image ∷ images) c h = (
    (λ same. absurd (cc)),
    omega (arith, left-describe_images 0 (image ∷ images) message c.world),
  )

  lift-Ends : {A : Type 0} (n : ℕ) (o : Outcome A) → Ends (Has e left k n) (lift o)
  lift-Ends n o c h = (from_outcome-ne e left k o, h)

  -- A turn of the conversation has enough fuel with two units more than the answers with tool calls
  -- that the world has left.
  pub chat_with_images-Ends :
      (fuel n : ℕ) (message : Text) (images : List ImageAttachment)
      → n + 2 ≤ fuel
      → Ends (Has e left k n) (chat_with_images e fuel message images)
  unfolding chat_with_images
  chat_with_images-Ends fuel n message images enough =
      >>=-Ends (Has e left k n) (lift e.supports_vision) _ (lift-Ends n e.supports_vision) λ v.
        >>=-Ends (Has e left k n) (see e v message images) _ (see-Ends n v message images)
          λ (seen, kept).
            >>=-Ends (Has e left k n) (push e (user_message seen kept)) _
              (push-Ends e left k n (user_message seen kept))
              λ _.
                >>=-Ends (Has e left k n) (flush_if_due e fuel) _ (flush_if_due-Ends fuel n enough)
                  λ _. >>=-Ends (Has e left k n) (compact_if_due e) _ (compact_if_due-Ends n) λ _.
                    ask-then e left k fuel _
                      (λ m reply fuelled.
                        >>=-Ends (Has e left k m) (handle_response e fuel reply) _
                          (handle_response-Ends e left k fuel m reply fuelled)
                          λ (t, more).
                            >>=-Ends (Has e left k m) (push e (plain assistant t)) _
                              (push-Ends e left k m (plain assistant t))
                              λ _.
                                >>=-Ends (Has e left k m) (change e _) _ (change-Ends e left k m _)
                                  λ _. pure-Ends e left k m (t, total_usage reply.usage more))
                      n (omega (arith, enough))

  continue_calls-Ends :
      (n : ℕ) (executed : List String) (calls : List ToolCall)
      → Ends (Has e left k n) (continue_calls e executed calls)
  unfolding continue_calls
  continue_calls-Ends n executed [] = pure-Ends e left k n tt
  continue_calls-Ends n executed (call ∷ calls) =
      let rest = continue_calls-Ends n executed calls in
      elim (Bool-cases (has call.id executed)) [
        | inl is_answered ↦ rw (continue_calls, is_answered) rest
        | inr is_open ↦
            rw (continue_calls, is_open)
              (>>=-Ends (Has e left k n) (run_tool e call) _ (run_tool-Ends e left k n call) λ r.
                >>=-Ends (Has e left k n) (record_result e call r) _
                  (record_result-Ends e left k n call r) λ _. rest)
      ]

  pub continue_chat-Ends :
      (fuel n : ℕ) → n + 2 ≤ fuel → Ends (Has e left k n) (continue_chat e fuel)
  unfolding continue_chat
  continue_chat-Ends fuel n enough c h =
      elim (Option-cases (last_calls (messages_for_llm c.session))) [
        | inl nothing ↦ rw (continue_chat, nothing) ((λ same. absurd (cc)), h)
        | inr ((calls, later), found) ↦
            rw (continue_chat, found)
              (>>=-Ends (Has e left k n) (continue_calls e (executed_ids later) calls) _
                (continue_calls-Ends n (executed_ids later) calls)
                (λ _.
                  ask-then e left k fuel (handle_response e fuel)
                    (handle_response-Ends e left k fuel) n (omega (arith, enough)))
                c h)
      ]

  -- With two units of fuel more than the number of answers with tool calls that the world has left, a
  -- turn of the conversation and a continuation never run out of fuel, with any tools, images,
  -- approvals, flushes and compactions on the way.
  pub chat-ne-out_of_fuel :
      (fuel : ℕ) (message : Text) (images : List ImageAttachment) (c : Chat W)
      → left c.world + 2 ≤ fuel
      → ((chat_with_images e fuel message images c).0 ≢ out_of_fuel)
        × ((continue_chat e fuel c).0 ≢ out_of_fuel)
  chat-ne-out_of_fuel fuel message images c enough =
      let n = left c.world in
      (
        (chat_with_images-Ends fuel n message images enough c (omega arith)).0,
        (continue_chat-Ends fuel n enough c (omega arith)).0,
      )
