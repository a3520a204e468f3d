-- ===== src/Agent/ChatEngine/Fuel.antt =====
-- src/agent/chat_engine.rs: the loop over the answers ends when the model stops calling tools.
use zier_alpha.Prelude.{
  ℕ, zero, suc, ◌+◌, ◌≤◌, ◌<◌, ◌≡◌, ◌≢◌, refl, String, Text, List, [], ◌∷◌, Option, none, some,
  arith, inl, inr, ◌⊎◌,
}
use zier_alpha.Agent.LlmError.{ToolCall}
use zier_alpha.Agent.Messages.{Message, Usage, plain, assistant}
use zier_alpha.Agent.Client.{Outcome, Outcome-cases, done, failed}
use zier_alpha.Agent.Session.{Session, messages_for_llm, mark_memory_flushed}
use zier_alpha.Agent.ToolExecutor.{
  ToolResult, output, approval_required, tool_failed, unknown_tool, Approved, execute_tool,
}
use zier_alpha.Agent.Action.{out_of_fuel, Action, from_outcome, pure, ◌>>=◌}
use zier_alpha.Agent.Action.Runs.{Ends, >>=-Ends}
use zier_alpha.Agent.ChatEngine.{
  LlmResponseContent, text, tool_calls, SmartReply, Engine, Chat, calls_message, tool_message,
  user_message, result_text, flush_prompt, total_usage,
}
use zier_alpha.Agent.ChatEngine.Turns.{
  push, change, ask, run_tool, record_result, run_calls, respond, handle_response, memory_flush,
}

-- A model that calls tools a bounded number of times: each answer with calls uses up some of what a
-- world has left, and nothing that the engine does gives any back.
pub record IsBounded {W : Type 0} (e : Engine W) (left : W → ℕ) : Type 0 where
  pub by_chat : (ms : List Message) (w : W) → left (e.client_chat ms w).1 ≤ left w
  pub by_calls :
      (ms : List Message) (w : W) (reply : SmartReply) (calls : List ToolCall)
      → (e.client_chat ms w).0 ≡ done reply
      → reply.content ≡ tool_calls calls
      → left (e.client_chat ms w).1 < left w
  pub by_vision : (ms : List Message) (w : W) → left (e.vision_chat ms w).1 ≤ left w
  pub by_tool :
      (call : ToolCall) (approved : Approved) (w : W)
      → left (execute_tool e.replace_ci e.suspicious e.tools_config e.tools call approved w).2
        ≤ left w
  pub by_compact : (m : Option String) (s : Session) (w : W) → left (e.compact m s w).2 ≤ left w

content-cases :
    (content : LlmResponseContent)
    → ((t : Text) × (content ≡ text t)) ⊎ ((calls : List ToolCall) × (content ≡ tool_calls calls))
content-cases (text t) = inl (t, refl)
content-cases (tool_calls calls) = inr (calls, refl)

-- The fuel that a response needs in a world that has at most `n` left.
abbrev IsEnough : ℕ → ℕ → LlmResponseContent → Type 0
IsEnough n fuel (text t) = 1 ≤ fuel
IsEnough n fuel (tool_calls calls) = n + 2 ≤ fuel

module _ {W : Type 0} (e : Engine W) (left : W → ℕ) (k : IsBounded e left) where
  abbrev pub Has : ℕ → Chat W → Type 0
  Has n c = left c.world ≤ n

  pub pure-Ends : {A : Type 0} (n : ℕ) (a : A) → Ends (Has n) (pure a)
  pure-Ends n a c h = ((λ same. absurd (cc)), h)

  pub push-Ends : (n : ℕ) (m : Message) → Ends (Has n) (push e m)
  unfolding push
  push-Ends n m c h = ((λ same. absurd (cc)), h)

  pub change-Ends : (n : ℕ) (f : Session → Session) → Ends (Has n) (change e f)
  unfolding change
  change-Ends n f c h = ((λ same. absurd (cc)), h)

  pub from_outcome-ne : {A : Type 0} (o : Outcome A) → from_outcome o ≢ out_of_fuel
  from_outcome-ne (done a) same = absurd (cc)
  from_outcome-ne (failed f) same = absurd (cc)

  pub ask-Ends : (n : ℕ) → Ends (Has n) (ask e)
  unfolding ask
  ask-Ends n c h =
      let ms = messages_for_llm c.session in
      (from_outcome-ne (e.client_chat ms c.world).0, omega (arith, k.by_chat ms c.world))

  pub run_tool-Ends : (n : ℕ) (call : ToolCall) → Ends (Has n) (run_tool e call)
  unfolding run_tool
  run_tool-Ends n call c h =
      ((λ same. absurd (cc)), omega (arith, k.by_tool call c.approved c.world))

  pub record_result-Ends :
      (n : ℕ) (call : ToolCall) (r : ToolResult) → Ends (Has n) (record_result e call r)
  unfolding record_result
  record_result-Ends n call (approval_required name refused) = λ c h. ((λ same. absurd (cc)), h)
  record_result-Ends n call (output t) = push-Ends n (tool_message call.id t)
  record_result-Ends n call (tool_failed f) =
      push-Ends n (tool_message call.id (result_text e.display (tool_failed f)))
  record_result-Ends n call (unknown_tool name) =
      push-Ends n (tool_message call.id (result_text e.display (unknown_tool name)))

  run_calls-Ends : (n : ℕ) (calls : List ToolCall) → Ends (Has n) (run_calls e calls)
  unfolding run_calls
  run_calls-Ends n [] = pure-Ends n tt
  run_calls-Ends n (call ∷ calls) = >>=-Ends (Has n) (run_tool e call) _ (run_tool-Ends n call) λ r.
      >>=-Ends (Has n) (record_result e call r) _ (record_result-Ends n call r)
        λ _. run_calls-Ends n calls

  -- What goes on from an answer, with fuel for the calls that are left.
  abbrev Continues : {A : Type 0} → ℕ → (SmartReply → Action (Chat W) A) → Type 0
  Continues fuel f =
      (n : ℕ) (reply : SmartReply) → IsEnough n fuel reply.content → Ends (Has n) (f reply)

  after_ask :
      {A : Type 0} (fuel : ℕ) (f : SmartReply → Action (Chat W) A)
      → Continues fuel f
      → (n : ℕ) (c : Chat W) (reply : SmartReply) → n + 1 ≤ fuel
      → Has n c
      → (e.client_chat (messages_for_llm c.session) c.world).0 ≡ done reply
      → IsEnough (left (ask e c).1.world) fuel reply.content
  unfolding ask
  after_ask fuel f ends n c reply enough h answer = elim (content-cases reply.content) [
    | inl (t, is_text) ↦ rw is_text (omega arith)
    | inr (calls, is_calls) ↦
        rw is_calls (
          omega
            (arith, k.by_calls (messages_for_llm c.session) c.world reply calls answer is_calls))
  ]

  -- A question and what follows, which calls tools only where something is left.
  pub ask-then :
      {A : Type 0} (fuel : ℕ) (f : SmartReply → Action (Chat W) A)
      → Continues fuel f
      → (n : ℕ) → n + 1 ≤ fuel
      → Ends (Has n) (ask e >>= f)
  unfolding ◌>>=◌ ask
  ask-then fuel f ends n enough c h =
      let r = (e.client_chat (messages_for_llm c.session) c.world).0 in
      let c' = (ask e c).1 in
      let less : left c'.world ≤ n =
        omega (arith, k.by_chat (messages_for_llm c.session) c.world) in
      elim (Outcome-cases r) [
        | inl (f, bad) ↦ rw (◌>>=◌, ask, bad) ((λ same. absurd (cc)), less)
        | inr (reply, good) ↦
            let fuelled = after_ask fuel f ends n c reply enough h good in
            let (ran, kept) = ends (left c'.world) reply fuelled c' (omega arith) in
            rw (◌>>=◌, ask, good) (ran, omega arith)
      ]

  respond-Ends :
      (fuel : ℕ) (again : SmartReply → Action (Chat W) (Text × Option Usage))
      → Continues fuel again
      → (n : ℕ) (content : LlmResponseContent) → IsEnough n (suc fuel) content
      → Ends (Has n) (respond e again content)
  unfolding respond
  respond-Ends fuel again ends n (text t) enough = pure-Ends n (t, none)
  respond-Ends fuel again ends n (tool_calls calls) enough =
      >>=-Ends (Has n) (push e (calls_message [] (some calls))) _ (push-Ends n _) λ _.
        >>=-Ends (Has n) (run_calls e calls) _ (run_calls-Ends n calls) λ _.
          ask-then fuel _
            (λ m next fuelled.
              >>=-Ends (Has m) (again next) _ (ends m next fuelled)
                λ (t, usage). pure-Ends m (t, total_usage next.usage usage))
            n (omega arith)

  pub handle_response-Ends : (fuel : ℕ) → Continues fuel (handle_response e fuel)
  unfolding handle_response
  handle_response-Ends zero n reply enough = elim (content-cases reply.content) [
    | inl (t, is_text) ↦ absurd (omega (arith, rw is_text at enough))
    | inr (calls, is_calls) ↦ absurd (omega (arith, rw is_calls at enough))
  ]
  handle_response-Ends (suc fuel) n reply enough =
      respond-Ends fuel (handle_response e fuel) (handle_response-Ends fuel) n reply.content enough

  pub memory_flush-Ends : (fuel n : ℕ) → n + 2 ≤ fuel → Ends (Has n) (memory_flush e fuel)
  unfolding memory_flush
  memory_flush-Ends fuel n enough =
      >>=-Ends (Has n) (change e mark_memory_flushed) _ (change-Ends n mark_memory_flushed) λ _.
        >>=-Ends (Has n) _ _ (λ c. push-Ends n (user_message (flush_prompt (e.today c.world)) []) c)
          λ _.
            ask-then fuel _
              (λ m reply fuelled.
                >>=-Ends (Has m) (handle_response e fuel reply) _
                  (handle_response-Ends fuel m reply fuelled)
                  λ (t, usage). push-Ends m (plain assistant t))
              n (omega (arith, enough))
