-- ===== src/Agent/SessionManager/Attempts.antt =====
-- src/agent/session_manager.rs: what a compaction does to the session when models fail.
use zier_alpha.Prelude.{
  ℕ, ◌≡◌, refl, String, Text, List, [], ◌∷◌, Option, some, true, false, arith, ◌==◌, ltb, length,
  Bool-cases, inl, inr,
}
use zier_alpha.Agent.Client.{Outcome, Outcome-cases, done, failed, Failure}
use zier_alpha.Agent.Session.{Session, truncate_history, compact_native}
use zier_alpha.Agent.SessionManager.{
  CompactionConfig, retry, try_models, fall_back, truncates, native,
}

-- A strategy that leaves the session as it was when it fails.
abbrev pub IsAtomic {ℓ} :
    {W : Type ℓ} → (Option String → Session → W → Outcome (Unit {0}) × Session × W) → Type ℓ
IsAtomic {W = W} compact =
    (m : Option String) (s : Session) (w : W) (e : Failure)
    → (compact m s w).0 ≡ failed e
    → (compact m s w).1 ≡ s

-- The native strategy is one.
pub native-IsAtomic {ℓ} :
    {W : Type ℓ} (bpe : Option (Text → ℕ)) (now : ℕ)
    (summarize : Option String → Text → W → Outcome Text × W)
    → IsAtomic (native bpe now summarize)
unfolding native compact_native
native-IsAtomic bpe now summarize m s w e h = elim (Bool-cases (ltb (length s.messages) 4)) [
  | inl few ↦ rw few
  | inr many ↦ ground arith
]

module _ {ℓ} {W : Type ℓ} (compact : Option String → Session → W → Outcome (Unit {0}) × Session × W)
    (atomic : IsAtomic compact) where
  retry-next :
      (m : String) (models : List String) (s : Session) (w : W) (e : Failure)
      → (compact (some m) s w).0 ≡ failed e
      → retry compact (m ∷ models) s w ≡ retry compact models s (compact (some m) s w).2
  unfolding retry
  retry-next m models s w e h = let same = atomic (some m) s w e h in rw (retry, h, same)

  retry-first :
      (m : String) (models : List String) (s : Session) (w : W) (u : Unit)
      → (compact (some m) s w).0 ≡ done u
      → (retry compact (m ∷ models) s w).0 ≡ true
  unfolding retry
  retry-first m models s w u h = rw (retry, h)

  -- Models that all fail leave the session as it was.
  retry-false :
      (models : List String) (s : Session) (w : W)
      → (retry compact models s w).0 ≡ false
      → (retry compact models s w).1 ≡ s
  unfolding retry
  retry-false [] s w h = refl
  retry-false (m ∷ models) s w h = elim (Outcome-cases (compact (some m) s w).0) [
    | inl (e, bad) ↦
        let on = retry-next m models s w e bad in
        rw on (retry-false models s (compact (some m) s w).2 (rw on at h))
    | inr (u, good) ↦ absurd (cc (h, retry-first m models s w u good))
  ]

  try_models-false :
      (config : CompactionConfig) (s : Session) (w : W)
      → (try_models compact config s w).0 ≡ false
      → (try_models compact config s w).1 ≡ s
  unfolding try_models
  try_models-false config s w h = elim (Bool-cases (config.strategy == "truncate")) [
    | inl truncate ↦ rw truncate
    | inr models ↦ rw models (retry-false config.fallback_models s w (rw models at h))
  ]

  module _ (config : CompactionConfig) (before : ℕ) (e : Failure) (s : Session) (w : W) where
    pub fall_back_models :
        (try_models compact config s w).0 ≡ true
        → fall_back compact config before e s w ≡ (
          done (before, (try_models compact config s w).1.token_count),
          (try_models compact config s w).1,
          (try_models compact config s w).2,
        )
    unfolding fall_back
    fall_back_models h = rw (fall_back, h)

    pub fall_back_truncate :
        (try_models compact config s w).0 ≡ false
        → truncates config.strategy ≡ true
        → fall_back compact config before e s w ≡ (
          done (before, (truncate_history config.keep_last s).token_count),
          truncate_history config.keep_last s,
          (try_models compact config s w).2,
        )
    unfolding fall_back
    fall_back_truncate h t = rw (fall_back, h, try_models-false config s w h, t)

    pub fall_back_error :
        (try_models compact config s w).0 ≡ false
        → truncates config.strategy ≡ false
        → fall_back compact config before e s w ≡ (failed e, s, (try_models compact config s w).2)
    unfolding fall_back
    fall_back_error h t = rw (fall_back, h, try_models-false config s w h, t)
