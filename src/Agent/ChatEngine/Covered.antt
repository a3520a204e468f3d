-- ===== src/Agent/ChatEngine/Covered.antt =====
-- src/agent/chat_engine.rs with the native compaction of src/agent/compaction.rs: the token count of
-- the session through the turns of a conversation.
use zier_alpha.Prelude.{ℕ, ◌≡◌, sym, subst, Text, List, Option, String}
use zier_alpha.Ingress.Types.{ImageAttachment}
use zier_alpha.Agent.Client.{Outcome}
use zier_alpha.Agent.Session.{Session}
use zier_alpha.Agent.Session.Covered.{
  IsCovered, add_message-IsCovered, add_metadata-IsCovered, mark_memory_flushed-IsCovered,
  truncate_history-IsCovered, compact_native-IsCovered,
}
use zier_alpha.Agent.SessionManager.{native}
use zier_alpha.Agent.ChatEngine.{Engine, Chat}
use zier_alpha.Agent.ChatEngine.Turns.{chat_with_images, continue_chat}
use zier_alpha.Agent.ChatEngine.Tokens.{IsKept, chat_with_images-Keeps, continue_chat-Keeps}

-- An engine with the native strategy, which reads the clock when it starts.
abbrev pub IsNative :
    {W : Type 0} → Engine W → (Option String → Text → W → Outcome Text × W) → Type 0
IsNative {W = W} e summarize =
    (m : Option String) (s : Session) (w : W)
    → e.compact m s w ≡ native e.bpe (e.now w) summarize m s w

IsCovered-IsKept :
    {W : Type 0} (e : Engine W) (summarize : Option String → Text → W → Outcome Text × W)
    → IsNative e summarize
    → IsKept e (IsCovered e.bpe)
unfolding native
IsCovered-IsKept e summarize is_native = record {
  by_add = add_message-IsCovered e.bpe;
  by_metadata = add_metadata-IsCovered e.bpe;
  by_flush = mark_memory_flushed-IsCovered e.bpe;
  by_truncate = truncate_history-IsCovered e.bpe;
  by_compact = λ m s w h.
      subst (λ r. IsCovered e.bpe r.1) (sym (is_native m s w))
        (compact_native-IsCovered e.bpe (summarize m) (e.now w) s w h);
}

-- With the native compaction, a session whose stored token count is at least the tokens of its
-- context and messages is still such a one after a turn of the conversation and after a
-- continuation, whether they reply or fail, and whatever the client, the tools and the fallbacks of
-- the compaction do.
pub chat-IsCovered :
    {W : Type 0} (e : Engine W) (summarize : Option String → Text → W → Outcome Text × W)
    → IsNative e summarize
    → (fuel : ℕ) (message : Text) (images : List ImageAttachment) (c : Chat W)
    → IsCovered e.bpe c.session
    → IsCovered e.bpe (chat_with_images e fuel message images c).1.session
      × IsCovered e.bpe (continue_chat e fuel c).1.session
chat-IsCovered e summarize is_native fuel message images c h =
    let kept = IsCovered-IsKept e summarize is_native in
    (
      chat_with_images-Keeps e (IsCovered e.bpe) kept fuel message images c h,
      continue_chat-Keeps e (IsCovered e.bpe) kept fuel c h,
    )
