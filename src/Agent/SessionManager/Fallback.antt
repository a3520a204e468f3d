-- ===== src/Agent/SessionManager/Fallback.antt =====
-- src/agent/session_manager.rs, `compact_session`: how it ends.
use zier_alpha.Prelude.{
  ℕ, ◌≡◌, ap, ◌∙◌, String, Option, none, true, false, arith, Bool-cases, inl, inr,
}
use zier_alpha.Agent.Client.{Outcome, Outcome-cases, done, failed, Failure}
use zier_alpha.Agent.Session
use zier_alpha.Agent.Session.{Session, truncate_history}
use zier_alpha.Agent.SessionManager.{
  CompactionConfig, try_models, fall_back, compact_session, truncates, native_should_compact,
  should_compact, should_memory_flush, wrapping_sub,
}
use zier_alpha.Agent.SessionManager.Attempts.{
  IsAtomic, fall_back_models, fall_back_truncate, fall_back_error,
}

module _ {ℓ} {W : Type ℓ} (compact : Option String → Session → W → Outcome (Unit {0}) × Session × W)
    (atomic : IsAtomic compact) (config : CompactionConfig) (s : Session) (w : W) where
  abbrev run : Outcome (ℕ × ℕ) × Session × W
  run = compact_session compact config s w

  -- The world after the first attempt.
  abbrev next : W
  next = (compact none s w).2

  run-done :
      (u : Unit)
      → (compact none s w).0 ≡ done u
      → run.0 ≡ done (s.token_count, (compact none s w).1.token_count)
  unfolding compact_session
  run-done u h = rw (compact_session, h)

  run-failed :
      (e : Failure)
      → (compact none s w).0 ≡ failed e
      → run ≡ fall_back compact config s.token_count e s next
  unfolding compact_session
  run-failed e h = let same = atomic none s w e h in rw (compact_session, h, same)

  -- With a strategy that leaves the session alone when it fails, a compaction that returns an error
  -- leaves the session as it was, and its error is that of the first attempt; the setting then does
  -- not allow truncation.
  pub compact_session-failed :
      (e : Failure)
      → run.0 ≡ failed e
      → (run.1 ≡ s) × ((compact none s w).0 ≡ failed e) × (truncates config.strategy ≡ false)
  compact_session-failed e h = elim (Outcome-cases (compact none s w).0) [
    | inr (u, good) ↦ absurd (cc (h, run-done u good))
    | inl (f, bad) ↦
        let falls = run-failed f bad in
        elim (Bool-cases (try_models compact config s next).0) [
          | inl helped ↦
              let ends = fall_back_models compact atomic config s.token_count f s next helped in
              absurd (cc (h, falls, ends))
          | inr none_helped ↦ elim (Bool-cases (truncates config.strategy)) [
            | inl cuts ↦
                let ends =
                  fall_back_truncate compact atomic config s.token_count f s next none_helped
                    cuts in
                absurd (cc (h, falls, ends))
            | inr keeps ↦
                let ends =
                  fall_back_error compact atomic config s.token_count f s next none_helped keeps in
                let ended : run.0 ≡ failed f = ap (λ r. r.0) (falls ∙ ends) in
                let same : f ≡ e = cc (ended, h) in
                (ap (λ r. r.1) (falls ∙ ends), bad ∙ ap failed same, keeps)
          ]
        ]
  ]

  -- With such a strategy, where the first attempt and all models that are tried fail and the setting
  -- allows it, the history is truncated; the compaction is a success that reports the same number
  -- of tokens before and after, and does not mark the session as changed.
  pub compact_session-truncate_history :
      (e : Failure)
      → (compact none s w).0 ≡ failed e
      → (try_models compact config s next).0 ≡ false
      → truncates config.strategy ≡ true
      → (run.0 ≡ done (s.token_count, s.token_count))
        × (run.1 ≡ truncate_history config.keep_last s)
        × (run.1.dirty ≡ s.dirty)
  unfolding truncate_history
  compact_session-truncate_history e bad none_helped cuts =
      let ends =
        run-failed e bad
        ∙ fall_back_truncate compact atomic config s.token_count e s next none_helped cuts in
      (ap (λ r. r.0) ends, ap (λ r. r.1) ends, ap (λ r. r.1.dirty) ends)

-- If the tokenizer does not load, a session whose memory was not flushed since its last compaction
-- is due for a flush whenever it is due for a compaction.
pub should_compact-should_memory_flush :
    (context_window reserve_tokens : ℕ) (s : Session)
    → should_compact none context_window reserve_tokens s ≡ true
    → Session.should_memory_flush s ≡ true
    → should_memory_flush context_window reserve_tokens s ≡ true
unfolding should_compact native_should_compact should_memory_flush
should_compact-should_memory_flush context_window reserve_tokens s due unflushed =
    let limit = wrapping_sub context_window reserve_tokens in ground arith
