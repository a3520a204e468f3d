-- ===== src/Agent/ChatEngine/Streams.antt =====
-- src/agent/chat_engine.rs: the streaming loop. What the stream yields is a list; the chunks that the
-- client's stream gives are a list that is known when it starts.
use zier_alpha.Prelude.{
  ℕ, zero, suc, String, Text, List, [], ◌∷◌, ◌++◌, Option, none, some, Bool, true, false, is_empty,
  codes, if◌then◌else◌,
}
use zier_alpha.Ingress.Types.{ImageAttachment}
use zier_alpha.Agent.LlmError.{ToolCall}
use zier_alpha.Agent.Client.{Failure, other, Outcome, done, failed}
use zier_alpha.Agent.Session.{messages_for_llm}
use zier_alpha.Agent.ToolExecutor.{execute_tool}
use zier_alpha.Agent.Action.{Reply, replied, raised, out_of_fuel, Action, lift, ◌>>=◌, ◌>>◌}
use zier_alpha.Agent.ChatEngine.{
  StreamChunk, Engine, Chat, calls_message, tool_message, user_message, result_text,
}
use zier_alpha.Agent.ChatEngine.Turns.{push, flush_if_due, compact_if_due, see}
use zier_alpha.Agent.ToolExecutor.{requires_approval}

pub data StreamEvent : Type 0 where
  content : Text → StreamEvent
  tool_call_start approval_needed : ToolCall → StreamEvent
  tool_call_end : String → String → Text → StreamEvent
  finished : StreamEvent

-- `Result<StreamEvent>`
pub data StreamItem : Type 0 where
  event : StreamEvent → StreamItem
  stream_error : Failure → StreamItem

-- What a stream of chunks comes to: the items yielded, the error that ends it, and what it said.
pub record Turn : Type 0 where
  pub items : List StreamItem
  pub error : Option Failure
  pub full_text : Text
  pub calls : Option (List ToolCall)

abbrev yield_content : Text → Turn → Turn
yield_content delta t =
    if is_empty delta then t else record t { items = event (content delta) ∷ t.items }

-- The inner loop over the chunks.
unfoldable pub read_stream : List (Outcome StreamChunk) → Text → Option (List ToolCall) → Turn
read_stream [] full_text calls = record {
  items = [];
  error = none;
  full_text = full_text;
  calls = calls;
}
read_stream (failed e ∷ chunks) full_text calls = record {
  items = [];
  error = some e;
  full_text = full_text;
  calls = calls;
}
read_stream (done chunk ∷ chunks) full_text calls = yield_content chunk.delta (
    read_stream chunks (full_text ++ chunk.delta)
      (if chunk.is_done then chunk.tool_calls else calls))

-- The items of the calls, whether all of them were run, and the state after them.
pub record Called (W : Type 0) : Type 0 where
  pub items : List StreamItem
  pub all_run : Bool
  pub after : Chat W

abbrev max_tool_iterations : ℕ
max_tool_iterations = 10

module _ {W : Type 0} (e : Engine W) where
  -- One call: its result, put into the session.
  unfoldable pub stream_call : ToolCall → Chat W → Text × Chat W
  stream_call call c =
      let (r, left, w) =
        execute_tool e.replace_ci e.suspicious e.tools_config e.tools call c.approved c.world in
      let t = result_text e.display r in
      (t, (push e (tool_message call.id t) (record c { approved = left; world = w })).1)

  -- The loop over the calls, which a call that needs an approval ends.
  unfoldable pub stream_calls : List ToolCall → Chat W → Called W
  stream_calls [] c = record { items = []; all_run = true; after = c }
  stream_calls (call ∷ calls) c =
      let (t, c') = stream_call call c in
      let rest = stream_calls calls c' in
      if requires_approval e.tools_config call.name
      then record { items = event (approval_needed call) ∷ []; all_run = false; after = c }
      else record rest {
        items =
            event (tool_call_start call) ∷ event (tool_call_end call.name call.id t) ∷ rest.items;
      }

  -- The assistant's message, unless it is empty.
  unfoldable pub push_turn : Turn → Chat W → Chat W
  push_turn t c = elim t.calls [
    | some calls ↦ (push e (calls_message t.full_text (some calls)) c).1
    | none ↦ if is_empty t.full_text then c else (push e (calls_message t.full_text none) c).1
  ]

  -- What follows the calls of a turn: the next turn, if all of them were run.
  abbrev pub then_turn : Called W → List StreamItem × Chat W → List StreamItem × Chat W
  then_turn called (items, c) =
      if called.all_run then (called.items ++ items, c) else (called.items, called.after)

  -- `stream_with_tool_loop` with the iterations that are left.
  unfoldable pub stream_turns : ℕ → Chat W → List StreamItem × Chat W
  stream_turns zero c = (stream_error (other (codes "Max tool iterations exceeded")) ∷ [], c)
  stream_turns (suc n) c =
      let (r, w) = e.client_stream (messages_for_llm c.session) c.world in
      let c1 = record c { world = w } in
      elim r [
        | failed f ↦ (stream_error f ∷ [], c1)
        | done chunks ↦
            let t = read_stream chunks [] none in
            let c2 = push_turn t c1 in
            elim t.error [
              | some f ↦ (t.items ++ stream_error f ∷ [], c1)
              | none ↦ elim t.calls [
                | none ↦ (t.items ++ event finished ∷ [], c2)
                | some calls ↦
                    let called = stream_calls calls c2 in
                    let (items, c3) = then_turn called (stream_turns n called.after) in
                    (t.items ++ items, c3)
              ]
            ]
      ]

  unfoldable pub stream_with_tool_loop : Chat W → List StreamItem × Chat W
  unfolding stream_turns
  stream_with_tool_loop = stream_turns max_tool_iterations

  -- What comes before the stream: an error is returned before it.
  unfoldable pub start_stream : ℕ → Text → List ImageAttachment → Action (Chat W) (Unit {0})
  start_stream fuel message images = do
    supports_vision ← lift e.supports_vision
    (final_content, kept) ← see e supports_vision message images
    push e (user_message final_content kept)
    flush_if_due e fuel
    compact_if_due e

  -- `chat_stream_with_tools`
  unfoldable pub chat_stream_with_tools :
      ℕ → Text → List ImageAttachment → Chat W → Reply (List StreamItem) × Chat W
  chat_stream_with_tools fuel message images c =
      let (r, c') = start_stream fuel message images c in
      let (items, c2) = stream_with_tool_loop c' in
      elim r [
        | replied _ ↦ (replied items, c2)
        | raised f ↦ (raised f, c')
        | out_of_fuel ↦ (out_of_fuel, c')
      ]
