-- ===== src/Examples/Session.antt =====
-- src/agent/session.rs on a session of a system message and four others.
use zier_alpha.Prelude.{
  ℕ, ◌+◌, ◌-◌, ◌≡◌, ◌≤◌, ◌<◌, refl, String, Text, List, [], ◌∷◌, ◌++◌, Option, none, some, codes,
  true, false, arith, keep, not, length, min, take, drop, inl, byte_len, map,
}
use zier_alpha.Agent.Messages.{Message, SessionMessage, Usage, plain, user, assistant, system}
use zier_alpha.Agent.Client.{Outcome, done}
use zier_alpha.Agent.Session.{
  Session, new_with_id, add_message, add_message_with_metadata, to_summarize, summarized,
  compact_native, truncate_history, should_memory_flush, mark_memory_flushed, count_tokens_default,
  message_tokens,
}
use zier_alpha.Agent.Session.Tokens.{IsCounted}

-- A tokenizer that does not load: a token is four bytes.
abbrev bpe : Option (Text → ℕ)
bpe = none

abbrev said : String → SessionMessage
said text = record {
  message = plain user (codes text);
  provider = none;
  model = none;
  api = none;
  usage = none;
  stop_reason = none;
  timestamp = 0;
  model_config_name = none;
  latency_ms = none;
}

abbrev rules : SessionMessage
rules = record (said "be brief") { message = plain system (codes "be brief") }

abbrev empty : Session
empty = record {
  id = "s";
  created_at = 0;
  cwd = codes "/work";
  messages = [];
  system_context = none;
  token_count = 0;
  compaction_count = 0;
  memory_flush_compaction_count = 0;
  dirty = true;
}

abbrev four : Session
four = record empty { messages = said "first" ∷ rules ∷ said "second" ∷ said "third" ∷ [] }

abbrev five : Session
five = record four { messages = said "zeroth" ∷ four.messages; token_count = 6 }

abbrev summarize : Text → ℕ → Outcome Text × ℕ
summarize text w = (done (codes "in short"), w + 1)

five-IsCounted : IsCounted bpe five
unfolding zier_alpha.Agent.Session.context_tokens message_tokens count_tokens_default
    zier_alpha.Prelude.len_utf8
five-IsCounted = refl

abbrev usage : Usage
usage = record { input_tokens = 12; output_tokens = 34 }

abbrev answer : Message
answer = plain assistant (codes "hi")
