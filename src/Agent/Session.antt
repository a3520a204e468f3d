-- ===== src/Agent/Session.antt =====
-- src/agent/session.rs: a conversation, its token count, and how it is cut down.
-- Parameters: the tokenizer of `tiktoken_rs` (`none` if it does not load), the summary that a
-- provider gives, and the readings of the clock. A `u32` counter wraps, as in a release build; the
-- sums of tokens stay far below the bound of `usize`, which is not modelled.
pub mod Tokens
pub mod Covered
pub mod Format
pub mod Parsed
pub mod Reread
pub mod Files
pub mod Compaction
use Prim.Native.Nat.{◌%◌, ◌^◌, ◌/◌}
use zier_alpha.Prelude.{
  ℕ, ◌+◌, ◌-◌, String, Text, List, [], ◌∷◌, ◌++◌, map, Option, none, some, Bool, true, false, not,
  ◌||◌, length, keep, drop, take, sum_of, is_empty, byte_len, join, codes, ltb, leb, if◌then◌else◌,
}
use zier_alpha.Agent.Messages
use zier_alpha.Agent.Messages.{
  Message, Role, SessionMessage, Usage, system, user, assistant, plain, is_system, is_assistant,
  is_dialogue, role_name, with_metadata,
}
use zier_alpha.Agent.Client.{Outcome, done, failed}

pub record Session : Type 0 where
  pub id : String
  pub created_at : ℕ
  pub cwd : Text
  pub messages : List SessionMessage
  pub system_context : Option Text
  pub token_count : ℕ
  pub compaction_count : ℕ
  pub memory_flush_compaction_count : ℕ
  pub dirty : Bool

unfoldable pub new_with_id : ℕ → Text → String → Session
new_with_id now cwd id = record {
  id = id;
  created_at = now;
  cwd = cwd;
  messages = [];
  system_context = none;
  token_count = 0;
  compaction_count = 0;
  memory_flush_compaction_count = 0;
  dirty = true;
}

-- `+ 1` on a `u32`.
abbrev pub next_u32 : ℕ → ℕ
next_u32 n = (n + 1) % 2 ^ 32

unfoldable pub should_memory_flush : Session → Bool
should_memory_flush s = leb s.memory_flush_compaction_count s.compaction_count

unfoldable pub mark_memory_flushed : Session → Session
mark_memory_flushed s = record s {
  memory_flush_compaction_count = next_u32 s.compaction_count;
  dirty = true;
}

-- The system messages, then the last `keep_last` of the others. The token count stays as it was.
unfoldable pub truncate_history : ℕ → Session → Session
truncate_history keep_last s =
    let system_messages = keep (λ m. is_system m.message.role) s.messages in
    let other_messages = keep (λ m. not (is_system m.message.role)) s.messages in
    let kept =
      if ltb keep_last (length other_messages)
      then drop (length other_messages - keep_last) other_messages
      else other_messages in
    record s { messages = system_messages ++ kept }

abbrev some_or {ℓ} : {A : Type ℓ} → Option A → Option A → Option A
some_or none old = old
some_or (some a) old = some a

unfoldable pub update_last : Option Text → Option ℕ → List SessionMessage → List SessionMessage
update_last name latency [] = []
update_last name latency (m ∷ []) =
    record m {
      model_config_name = some_or name m.model_config_name;
      latency_ms = some_or latency m.latency_ms;
    }
    ∷ []
update_last name latency (m ∷ m' ∷ ms) = m ∷ update_last name latency (m' ∷ ms)

unfoldable pub add_metadata_to_last_message : Option Text → Option ℕ → Session → Session
unfolding update_last
add_metadata_to_last_message name latency s =
    if is_empty s.messages
    then s
    else record s { messages = update_last name latency s.messages; dirty = true }

unfoldable pub messages_for_llm : Session → List Message
messages_for_llm s =
    elim s.system_context [ none ↦ [] | some context ↦ plain system context ∷ [] ]
    ++ map (λ (m : SessionMessage). m.message) s.messages

unfoldable pub user_assistant_messages : Session → List Message
user_assistant_messages s =
    map (λ (m : SessionMessage). m.message) (keep (λ m. is_dialogue m.message.role) s.messages)

abbrev pub keep_count : ℕ
keep_count = 4

-- The text that is summarized: a role and a content for each message but the last four.
unfoldable pub to_summarize : Session → Text
to_summarize s = join (10 ∷ 10 ∷ []) (
    map (λ (m : SessionMessage). role_name m.message.role ++ (codes ": " ++ m.message.content))
      (take (length s.messages - keep_count) s.messages))

module _ (bpe : Option (Text → ℕ)) where
  unfoldable pub count_tokens_default : Text → ℕ
  count_tokens_default text = elim bpe [ some encoded ↦ encoded text | none ↦ byte_len text / 4 ]

  -- What the loop of `recalculate_tokens` adds for a message: the stored usage of an assistant's
  -- message, the count of any other.
  unfoldable pub message_tokens : SessionMessage → ℕ
  message_tokens m = elim m.usage [
    | none ↦ count_tokens_default m.message.content
    | some usage ↦
        if is_assistant m.message.role then usage.output else count_tokens_default m.message.content
  ]

  unfoldable pub context_tokens : Option Text → ℕ
  context_tokens none = 0
  context_tokens (some context) = count_tokens_default context

  unfoldable pub recalculate_tokens : Session → Session
  recalculate_tokens s = record s {
    token_count = context_tokens s.system_context + sum_of message_tokens s.messages;
  }

  unfoldable pub set_system_context : Text → Session → Session
  unfolding recalculate_tokens
  set_system_context context s =
      record (recalculate_tokens (record s { system_context = some context })) { dirty = true }

  unfoldable pub add_message : ℕ → Message → Session → Session
  add_message now message s = record s {
    token_count = s.token_count + count_tokens_default message.content;
    messages = s.messages ++ Messages.new now message ∷ [];
    dirty = true;
  }

  -- The tokens of a message that comes with the provider's usage.
  unfoldable pub reported_tokens : Message → Option Usage → ℕ
  reported_tokens message none = count_tokens_default message.content
  reported_tokens message (some u) =
      if is_assistant message.role then u.output_tokens else count_tokens_default message.content

  unfoldable pub add_message_with_metadata :
      ℕ → Message → Option Text → Option Text → Option Usage → Option Text → Session → Session
  unfolding reported_tokens
  add_message_with_metadata now message provider model usage stop_reason s = record s {
    token_count = s.token_count + reported_tokens message usage;
    messages = s.messages ++ with_metadata now message provider model usage stop_reason ∷ [];
    dirty = true;
  }

  -- The session with its older messages replaced by a summary of them.
  unfoldable pub summarized : ℕ → Text → Session → Session
  unfolding recalculate_tokens
  summarized now summary s =
      record (recalculate_tokens (record s {
        messages =
            Messages.new now
              (plain system (codes "Previous conversation summary:" ++ (10 ∷ 10 ∷ summary)))
            ∷ drop (length s.messages - keep_count) s.messages;
        compaction_count = next_u32 s.compaction_count;
      })) { dirty = true }

  unfoldable pub compact_native {ℓ} :
      {W : Type ℓ}
      → (Text → W → Outcome Text × W)
      → ℕ
      → Session
      → W
      → Outcome (Unit {0}) × Session × W
  compact_native summarize now s w =
      let (r, w') = summarize (to_summarize s) w in
      if ltb (length s.messages) 4 then (done tt, s, w) else elim r [
        | failed e ↦ (failed e, s, w')
        | done summary ↦ (done tt, summarized now summary s, w')
      ]
