-- ===== src/Agent/ChatEngine/Protocol.antt =====
-- src/agent/chat_engine.rs: the language of the streams that `stream_with_tool_loop` yields.
use zier_alpha.Prelude.{
  ℕ, zero, suc, ◌≡◌, Text, List, [], ◌∷◌, ◌++◌, Option, none, true, false, is_empty, codes,
  Bool-cases, Option-cases, inl, inr, if◌then◌else◌,
}
use zier_alpha.Agent.LlmError.{ToolCall}
use zier_alpha.Agent.Client.{Failure, other, Outcome, Outcome-cases, done, failed}
use zier_alpha.Agent.Session.{messages_for_llm}
use zier_alpha.Agent.ToolExecutor.{ToolsConfig, requires_approval}
use zier_alpha.Agent.ChatEngine.{Engine, Chat, StreamChunk}
use zier_alpha.Agent.ChatEngine.Streams.{
  StreamItem, event, stream_error, content, tool_call_start, approval_needed, tool_call_end,
  finished, read_stream, stream_call, stream_calls, push_turn, then_turn, stream_turns,
  stream_with_tool_loop,
}

-- Texts and runs of tools that need no approval, each start followed by its end, and then one last
-- item: the end, an error, or a call that needs an approval.
pub data Protocol (config : ToolsConfig) : List StreamItem → Type 0 where
  ended : Protocol config (event finished ∷ [])
  broken : (f : Failure) → Protocol config (stream_error f ∷ [])
  refused :
      (call : ToolCall)
      → requires_approval config call.name ≡ true
      → Protocol config (event (approval_needed call) ∷ [])
  said :
      (delta : Text) (items : List StreamItem)
      → is_empty delta ≡ false
      → Protocol config items
      → Protocol config (event (content delta) ∷ items)
  ran :
      (call : ToolCall) (result : Text) (items : List StreamItem)
      → requires_approval config call.name ≡ false
      → Protocol config items
      → Protocol config
          (event (tool_call_start call) ∷ event (tool_call_end call.name call.id result) ∷ items)

read_stream-Protocol :
    (config : ToolsConfig) (chunks : List (Outcome StreamChunk)) (t : Text)
    (calls : Option (List ToolCall)) (rest : List StreamItem)
    → Protocol config rest
    → Protocol config ((read_stream chunks t calls).items ++ rest)
unfolding read_stream
read_stream-Protocol config [] t calls rest h = h
read_stream-Protocol config (failed f ∷ chunks) t calls rest h = h
read_stream-Protocol config (done chunk ∷ chunks) t calls rest h =
    let last = if chunk.is_done then chunk.tool_calls else calls in
    let later = read_stream-Protocol config chunks (t ++ chunk.delta) last rest h in
    elim (Bool-cases (is_empty chunk.delta)) [
      | inl silent ↦ rw silent later
      | inr spoken ↦ rw spoken (said chunk.delta _ spoken later)
    ]

module _ {W : Type 0} (e : Engine W) where
  stream_calls-Protocol :
      (calls : List ToolCall) (c : Chat W) (rest : List StreamItem) (last : Chat W)
      → Protocol e.tools_config rest
      → Protocol e.tools_config (then_turn e (stream_calls e calls c) (rest, last)).0
  unfolding stream_calls
  stream_calls-Protocol [] c rest last h = h
  stream_calls-Protocol (call ∷ calls) c rest last h =
      elim (Bool-cases (requires_approval e.tools_config call.name)) [
        | inl needed ↦ rw needed (refused call needed)
        | inr free ↦
            let c' = (stream_call e call c).1 in
            let later = stream_calls-Protocol calls c' rest last h in
            elim (Bool-cases (stream_calls e calls c').all_run) [
              | inl whole ↦ rw (free, whole) (ran call _ _ free (rw whole at later))
              | inr part ↦ rw (free, part) (ran call _ _ free (rw part at later))
            ]
      ]

  pub stream_turns-Protocol : (n : ℕ) (c : Chat W) → Protocol e.tools_config (stream_turns e n c).0
  unfolding stream_turns
  stream_turns-Protocol zero c = broken (other (codes "Max tool iterations exceeded"))
  stream_turns-Protocol (suc n) c =
      let reply = e.client_stream (messages_for_llm c.session) c.world in
      let c1 : Chat W = record c { world = reply.1 } in
      elim (Outcome-cases reply.0) [
        | inl (f, bad) ↦ rw (stream_turns, bad) (broken f)
        | inr (chunks, good) ↦
            let t = read_stream chunks [] none in
            let read = read_stream-Protocol e.tools_config chunks [] none in
            elim (Option-cases t.error) [
              | inr (f, cut) ↦ rw (stream_turns, good, cut) (read _ (broken f))
              | inl whole ↦ elim (Option-cases t.calls) [
                | inl no_calls ↦ rw (stream_turns, good, whole, no_calls) (read _ ended)
                | inr (calls, some_calls) ↦
                    let c2 = push_turn e t c1 in
                    let called = stream_calls e calls c2 in
                    let next = stream_turns e n called.after in
                    rw (stream_turns, good, whole, some_calls)
                      (read _ (
                        stream_calls-Protocol calls c2 next.0 next.1
                          (stream_turns-Protocol n called.after)))
              ]
            ]
      ]

  -- The stream of the tool loop is always texts and runs of tools that need no approval, each start
  -- followed by its end, and then exactly one last item.
  pub stream_with_tool_loop-Protocol :
      (c : Chat W) → Protocol e.tools_config (stream_with_tool_loop e c).0
  unfolding stream_with_tool_loop
  stream_with_tool_loop-Protocol c = stream_turns-Protocol 10 c
