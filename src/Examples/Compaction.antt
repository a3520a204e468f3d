-- ===== src/Examples/Compaction.antt =====
-- src/agent/session_manager.rs on a session of five messages, with a model that never summarizes.
use zier_alpha.Prelude.{ℕ, ◌+◌, ◌≡◌, refl, String, Text, [], ◌∷◌, Option, none, false, codes}
use zier_alpha.Agent.Messages.{SessionMessage, plain, user}
use zier_alpha.Agent.Client.{Outcome, failed, Failure, other}
use zier_alpha.Agent.Session.{Session, compact_native}
use zier_alpha.Agent.SessionManager.{
  CompactionConfig, compact_session, native, truncates, should_compact, should_memory_flush,
  try_models, retry, native_should_compact,
}
use zier_alpha.Agent.SessionManager.Attempts.{native-IsAtomic}
use zier_alpha.Agent.SessionManager.Fallback.{compact_session-failed}

abbrev said : String → SessionMessage
said text = record {
  message = plain user (codes text);
  provider = none;
  model = none;
  api = none;
  usage = none;
  stop_reason = none;
  timestamp = 0;
  model_config_name = none;
  latency_ms = none;
}

abbrev session : Session
session = record {
  id = "s";
  created_at = 0;
  cwd = codes "/work";
  messages = said "a" ∷ said "b" ∷ said "c" ∷ said "d" ∷ said "e" ∷ [];
  system_context = none;
  token_count = 90000;
  compaction_count = 0;
  memory_flush_compaction_count = 0;
  dirty = false;
}

abbrev refusal : Failure
refusal = other (codes "no model")

-- The world counts the calls.
abbrev summarize : Option String → Text → ℕ → Outcome Text × ℕ
summarize model text w = (failed refusal, w + 1)

abbrev settings : String → CompactionConfig
settings strategy = record { strategy = strategy; fallback_models = "local" ∷ []; keep_last = 2 }

abbrev compact : Option String → Session → ℕ → Outcome (Unit {0}) × Session × ℕ
compact = native none 7 summarize

compact_session-failed_example :
    ((compact_session compact (settings "models") session 0).1 ≡ session)
    × ((compact none session 0).0 ≡ failed refusal)
    × (truncates "models" ≡ false)
unfolding native compact_session compact_native zier_alpha.Agent.SessionManager.fall_back try_models
    retry truncates
compact_session-failed_example =
    compact_session-failed compact (native-IsAtomic none 7 summarize) (settings "models") session 0
      refusal refl
