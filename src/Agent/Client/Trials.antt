-- ===== src/Agent/Client/Trials.antt =====
-- src/agent/client.rs: which candidate decides the outcome of a chat.
use zier_alpha.Prelude.Dict.{has}
use zier_alpha.Prelude.{
  eq_refl, ◌≡◌, refl, sym, ◌∙◌, ◌⊎◌, inl, inr, String, List, [], ◌∷◌, ◌++◌, Option, none, some,
  true, arith,
}
use zier_alpha.Config.Models.{ModelConfig}
use zier_alpha.Agent.Client.{
  Deps, Config, Failure, Outcome, Outcome-cases, done, failed, resolve_config,
}
use zier_alpha.Agent.Client.Chat.{
  Attempt, skipped, answered, denied, fell_through, attempt, try_candidates, after_call,
  create_provider_from_config,
}

module _ {J : Type 0} (d : Deps) (config : Config J) where
  after_call-answered :
      (c' : ModelConfig J) (x : Outcome d.Response × d.World) (c : ModelConfig J) (r : d.Response)
      (v : d.World)
      → after_call d config c' x ≡ answered c r v
      → (c' ≡ c) × (x ≡ (done r, v))
  unfolding after_call
  after_call-answered c' (done r', w) c r v h = (ground arith, ground arith)
  after_call-answered c' (failed e, w) c r v h = absurd (ground arith)

  -- The last error and the world after candidates none of which decides the outcome.
  pub passed : List String → Failure → d.World → Option (Failure × d.World)
  passed [] e w = some (e, w)
  passed (a ∷ rest) e w = elim (attempt d config a w) [
    | skipped ↦ passed rest e w
    | answered c r w' ↦ none
    | denied f w' ↦ none
    | fell_through f w' ↦ passed rest f w'
  ]

  -- How a run over the candidates can end.
  pub data Ending (cs : List String) (e : Failure) (w : d.World) : Type 0 where
    exhausted :
        (f : Failure) (v : d.World)
        → passed cs e w ≡ some (f, v)
        → try_candidates d config cs e w ≡ (failed f, v)
        → Ending cs e w
    stopped :
        (pre : List String) (a : String) (post : List String) (f : Failure) (v : d.World)
        → cs ≡ pre ++ a ∷ post
        → passed pre e w ≡ some (f, v)
        → ((c : ModelConfig J) × (r : d.Response) × (u : d.World) × (attempt d config a v
              ≡ answered c r u)
            × (try_candidates d config cs e w ≡ (done (c, r), u)))
          ⊎ ((g : Failure) × (u : d.World) × (attempt d config a v ≡ denied g u)
              × (try_candidates d config cs e w ≡ (failed g, u)))
        → Ending cs e w

  -- An answer that a candidate's provider gave.
  abbrev pub IsAnswer : List String → ModelConfig J → d.Response → d.World → Type 0
  IsAnswer cs c r v =
      (a : String) × (p : d.Provider) × (u : d.World) × (has a cs ≡ true)
      × (resolve_config config a ≡ done c)
      × (create_provider_from_config d config c ≡ done p)
      × (d.call p u ≡ (done r, v))

  attempt-call :
      (a : String) (w : d.World) (c : ModelConfig J) (p : d.Provider)
      → resolve_config config a ≡ done c
      → create_provider_from_config d config c ≡ done p
      → attempt d config a w ≡ after_call d config c (d.call p w)
  unfolding attempt
  attempt-call a w c p good made = ground arith

  attempt-answered :
      (a : String) (w v : d.World) (c : ModelConfig J) (r : d.Response)
      → attempt d config a w ≡ answered c r v
      → IsAnswer (a ∷ []) c r v
  unfolding attempt
  attempt-answered a w v c r h = elim (Outcome-cases (resolve_config config a)) [
    | inl (e, bad) ↦ absurd (ground arith)
    | inr (c', good) ↦ elim (Outcome-cases (create_provider_from_config d config c')) [
      | inl (e, bad) ↦ absurd (ground arith)
      | inr (p, made) ↦
          let (same, answer) =
            after_call-answered c' (d.call p w) c r v (sym (attempt-call a w c' p good made) ∙ h) in
          (a, p, w, ground (arith, eq_refl a), rw (← same) good, rw (← same) made, answer)
    ]
  ]

  IsAnswer-more :
      (a : String) (cs : List String) (c : ModelConfig J) (r : d.Response) (v : d.World)
      → IsAnswer cs c r v
      → IsAnswer (a ∷ cs) c r v
  IsAnswer-more a cs c r v (b, p, u, there, x, y, z) = (b, p, u, ground arith, x, y, z)

  IsAnswer-one :
      (a : String) (cs : List String) (c : ModelConfig J) (r : d.Response) (v : d.World)
      → IsAnswer (a ∷ []) c r v
      → IsAnswer (a ∷ cs) c r v
  IsAnswer-one a cs c r v (b, p, u, there, x, y, z) = (b, p, u, ground arith, x, y, z)

  round-IsAnswer :
      (a : String) (cs : List String) (e : Failure) (w v : d.World) (c : ModelConfig J)
      (r : d.Response)
      → ((f : Failure) (u : d.World)
          → try_candidates d config cs f u ≡ (done (c, r), v)
          → IsAnswer cs c r v)
      → (x : Attempt d config) → attempt d config a w ≡ x
      → try_candidates d config (a ∷ cs) e w ≡ (done (c, r), v)
      → IsAnswer (a ∷ cs) c r v
  unfolding try_candidates
  round-IsAnswer a cs e w v c r rest skipped at h =
      IsAnswer-more a cs c r v (rest e w (rw (try_candidates, at) at h))
  round-IsAnswer a cs e w v c r rest (fell_through f u) at h =
      IsAnswer-more a cs c r v (rest f u (rw (try_candidates, at) at h))
  round-IsAnswer a cs e w v c r rest (answered c' r' u) at h =
      let out : (done (c', r'), u) ≡ (done (c, r), v) = rw (try_candidates, at) at h in
      IsAnswer-one a cs c r v (attempt-answered a w v c r (ground arith))
  round-IsAnswer a cs e w v c r rest (denied f u) at h = absurd (ground arith)

  -- Every answer comes from one of the candidates: it is what the provider built from a candidate's
  -- resolved settings answered, and the settings returned with it are those.
  pub try_candidates-IsAnswer :
      (cs : List String) (e : Failure) (w v : d.World) (c : ModelConfig J) (r : d.Response)
      → try_candidates d config cs e w ≡ (done (c, r), v)
      → IsAnswer cs c r v
  unfolding try_candidates
  try_candidates-IsAnswer [] e w v c r h = absurd (ground arith)
  try_candidates-IsAnswer (a ∷ cs) e w v c r h =
      round-IsAnswer a cs e w v c r (λ f u. try_candidates-IsAnswer cs f u v c r)
        (attempt d config a w) refl h
