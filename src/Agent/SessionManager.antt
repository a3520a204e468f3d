-- ===== src/Agent/SessionManager.antt =====
-- src/agent/session_manager.rs and src/agent/compaction.rs: when a session is compacted or its memory
-- flushed, and what is tried when the compaction fails.
-- A compaction strategy is a function of the model, `none` for the client's own, the session and a
-- state `W` of the world. A `usize` has 64 bits and wraps, as in a release build.
pub mod Attempts
pub mod Fallback
use Prim.Native.Nat.{◌%◌, ◌^◌}
use zier_alpha.Prelude.{
  ℕ, ◌+◌, ◌-◌, String, Text, List, [], ◌∷◌, Option, none, some, Bool, true, false, ◌&&◌, ◌||◌, ◌==◌,
  ltb, sum_of, if◌then◌else◌,
}
use zier_alpha.Agent.Messages.{SessionMessage}
use zier_alpha.Agent.Client.{Outcome, done, failed, Failure}
use zier_alpha.Agent.Session
use zier_alpha.Agent.Session.{Session, truncate_history, compact_native}

-- The part of `config.agent.compaction` that is read.
pub record CompactionConfig : Type 0 where
  pub strategy : String
  pub fallback_models : List String
  pub keep_last : ℕ

-- `MEMORY_FLUSH_SOFT_THRESHOLD`.
abbrev pub soft_threshold : ℕ
soft_threshold = 4000

-- `a - b` on a `usize`.
abbrev pub wrapping_sub : ℕ → ℕ → ℕ
wrapping_sub a b = (a + 2 ^ 64 - b) % 2 ^ 64

-- `NativeCompactor::should_compact`; a tokenizer that does not load leaves the stored count.
unfoldable pub native_should_compact : Option (Text → ℕ) → Session → ℕ → Bool
native_should_compact none s limit = ltb limit s.token_count
native_should_compact (some encoded) s limit =
    let context : ℕ = elim s.system_context [ none ↦ 0 | some c ↦ encoded c ] in
    ltb limit (context + sum_of (λ (m : SessionMessage). encoded m.message.content) s.messages)

-- `SessionManager::should_compact` with the native strategy.
unfoldable pub should_compact : Option (Text → ℕ) → ℕ → ℕ → Session → Bool
should_compact bpe context_window reserve_tokens s =
    native_should_compact bpe s (wrapping_sub context_window reserve_tokens)

-- `saturating_sub` is the subtraction on ℕ.
unfoldable pub should_memory_flush : ℕ → ℕ → Session → Bool
should_memory_flush context_window reserve_tokens s =
    let hard_limit = wrapping_sub context_window reserve_tokens in
    let soft_limit = hard_limit - soft_threshold in
    ltb soft_limit s.token_count && Session.should_memory_flush s

unfoldable pub truncates : String → Bool
truncates strategy = strategy == "truncate" || strategy == "models_then_truncate"

-- `NativeCompactor::compact` with the summaries of each model.
unfoldable pub native {ℓ} :
    {W : Type ℓ}
    → Option (Text → ℕ)
    → ℕ
    → (Option String → Text → W → Outcome Text × W)
    → Option String
    → Session
    → W
    → Outcome (Unit {0}) × Session × W
native bpe now summarize model s w = compact_native bpe (summarize model) now s w

module _ {ℓ} {W : Type ℓ}
    (compact : Option String → Session → W → Outcome (Unit {0}) × Session × W) where
  -- The loop over the fallback models, which stops at the first success.
  unfoldable pub retry : List String → Session → W → Bool × Session × W
  retry [] s w = (false, s, w)
  retry (model ∷ models) s w =
      let (result, s', w') = compact (some model) s w in
      let rest = retry models s' w' in elim result [ done _ ↦ (true, s', w') | failed e ↦ rest ]

  -- With the strategy "truncate" no model is tried.
  unfoldable pub try_models : CompactionConfig → Session → W → Bool × Session × W
  try_models config s w =
      if config.strategy == "truncate" then (false, s, w) else retry config.fallback_models s w

  -- What follows a failure of the first compaction, which counted `before` tokens.
  unfoldable pub fall_back :
      CompactionConfig → ℕ → Failure → Session → W → Outcome (ℕ × ℕ) × Session × W
  fall_back config before e s w =
      let (success, s', w') = try_models config s w in
      let cut = truncate_history config.keep_last s' in
      if success
      then (done (before, s'.token_count), s', w')
      else if truncates config.strategy
      then (done (before, cut.token_count), cut, w')
      else (failed e, s', w')

  unfoldable pub compact_session : CompactionConfig → Session → W → Outcome (ℕ × ℕ) × Session × W
  compact_session config s w =
      let (result, s', w') = compact none s w in
      elim result [
        | done _ ↦ (done (s.token_count, s'.token_count), s', w')
        | failed e ↦ fall_back config s.token_count e s' w'
      ]
