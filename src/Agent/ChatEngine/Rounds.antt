-- ===== src/Agent/ChatEngine/Rounds.antt =====
-- src/agent/chat_engine.rs: every call of a tool gets an answer in the conversation.
use zier_alpha.Prelude.{
  ◌≡◌, refl, sym, ap, ◌∙◌, Text, List, [], ◌∷◌, ◌++◌, map, append_assoc, append-nil, some, arith,
}
use zier_alpha.Agent.LlmError.{ToolCall}
use zier_alpha.Agent.Messages
use zier_alpha.Agent.Messages.{Message, SessionMessage}
use zier_alpha.Agent.Session.{add_message}
use zier_alpha.Agent.ToolExecutor.{ToolResult, output, approval_required, tool_failed, unknown_tool}
use zier_alpha.Agent.Action.{replied, Action}
use zier_alpha.Agent.Action.Runs.{>>=-replied}
use zier_alpha.Agent.ChatEngine.{Engine, Chat, calls_message, tool_message, result_text}
use zier_alpha.Agent.ChatEngine.Turns.{push, ask, run_tool, record_result, run_calls}

-- One message of a tool for each call, in order, with the call's identifier.
pub data Answers : List ToolCall → List Message → Type 0 where
  no_calls : Answers [] []
  answered :
      (call : ToolCall) (t : Text) (calls : List ToolCall) (ms : List Message)
      → Answers calls ms
      → Answers (call ∷ calls) (tool_message call.id t ∷ ms)

-- Messages of the assistant with calls, each followed by the answers to its calls.
pub data Rounds : List Message → Type 0 where
  settled : Rounds []
  round :
      (calls : List ToolCall) (results rest : List Message)
      → Answers calls results
      → Rounds rest
      → Rounds (calls_message [] (some calls) ∷ (results ++ rest))

module _ {W : Type 0} where
  abbrev pub conversation : Chat W → List Message
  conversation c = map (λ (m : SessionMessage). m.message) c.session.messages

-- What two parts add to a conversation, one after the other.
joined :
    (a : List Message) {b c : List Message} (xs ys : List Message)
    → b ≡ a ++ xs
    → c ≡ b ++ ys
    → c ≡ a ++ (xs ++ ys)
joined a xs ys first second = second ∙ ap (λ ms. ms ++ ys) first ∙ append_assoc a xs ys

module _ {W : Type 0} (e : Engine W) where
  map-snoc :
      (ms : List SessionMessage) (m : SessionMessage)
      → map (λ (x : SessionMessage). x.message) (ms ++ m ∷ [])
        ≡ map (λ (x : SessionMessage). x.message) ms ++ m.message ∷ []
  map-snoc [] m = refl
  map-snoc (x ∷ ms) m = ap (◌∷◌ x.message) (map-snoc ms m)

  pub conversation-push :
      (m : Message) (c : Chat W) → conversation (push e m c).1 ≡ conversation c ++ m ∷ []
  unfolding push add_message Messages.new
  conversation-push m c = map-snoc c.session.messages (Messages.new (e.now c.world) m)

  -- A result that does not end the loop is put into the conversation.
  conversation-record_result :
      (call : ToolCall) (r : ToolResult) (c c' : Chat W) (u : Unit)
      → record_result e call r c ≡ (replied u, c')
      → (t : Text) × (conversation c' ≡ conversation c ++ tool_message call.id t ∷ [])
  unfolding record_result
  conversation-record_result call (approval_required n k) c c' u h = absurd (ground arith)
  conversation-record_result call (output t) c c' u h =
      (t, ap (λ r. conversation r.1) (sym h) ∙ conversation-push (tool_message call.id t) c)
  conversation-record_result call (tool_failed f) c c' u h =
      let t = result_text e.display (tool_failed f) in
      (t, ap (λ r. conversation r.1) (sym h) ∙ conversation-push (tool_message call.id t) c)
  conversation-record_result call (unknown_tool n) c c' u h =
      let t = result_text e.display (unknown_tool n) in
      (t, ap (λ r. conversation r.1) (sym h) ∙ conversation-push (tool_message call.id t) c)

  conversation-run_tool :
      (call : ToolCall) (c : Chat W) → conversation (run_tool e call c).1 ≡ conversation c
  unfolding run_tool
  conversation-run_tool call c = refl

  conversation-ask : (c : Chat W) → conversation (ask e c).1 ≡ conversation c
  unfolding ask
  conversation-ask c = refl

  pub Answers-run_calls :
      (calls : List ToolCall) (c c' : Chat W) (u : Unit)
      → run_calls e calls c ≡ (replied u, c')
      → (ms : List Message) × Answers calls ms × (conversation c' ≡ conversation c ++ ms)
  unfolding run_calls run_tool
  Answers-run_calls [] c c' u h =
      ([], no_calls, ap (λ r. conversation r.1) (sym h) ∙ sym (append-nil (conversation c)))
  Answers-run_calls (call ∷ calls) c c' u h =
      let (r, _, h1) = >>=-replied (run_tool e call) _ c u c' h in
      let c1 = (run_tool e call c).1 in
      let (v, recorded, h2) = >>=-replied (record_result e call r) _ c1 u c' h1 in
      let c2 = (record_result e call r c1).1 in
      let (t, here) = conversation-record_result call r c1 c2 v recorded in
      let (ms, more, there) = Answers-run_calls calls c2 c' u h2 in
      (
        tool_message call.id t ∷ ms,
        answered call t calls ms more,
        joined (conversation c) (tool_message call.id t ∷ []) ms here there,
      )

  -- What a reply adds to the conversation before the last text.
  abbrev pub Added : Chat W → Chat W → Type 0
  Added c c' = (ms : List Message) × Rounds ms × (conversation c' ≡ conversation c ++ ms)
