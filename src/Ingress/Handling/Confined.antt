-- ===== src/Ingress/Handling/Confined.antt =====
-- src/ingress/handler.rs: what a message can make the agent do.
use zier_alpha.Prelude.{
  ℕ, ◌≡◌, ◌⊎◌, inl, inr, refl, sym, subst, String, Text, List, [], ◌∷◌, Option, Bool, true, All,
  starts_with, codes, keep, text_eq, Bool-cases, Option-cases,
}
use zier_alpha.Agent.Skills.{option_or}
use zier_alpha.Ingress.Types.{
  TrustLevel, owner_command, trusted_event, untrusted_event, IngressMessage,
}
use zier_alpha.Ingress.Handling.{
  Answer, replied, approval_required, turn_failed, Agent, Act, began, chatted, wrote, Environment,
  Setup, telegram, script_prefix, job_prefix, trim_start_matches, find_job, chat_id_of, new_session,
  chat_to_artifact, job_name, scoped_tools, stateless_session, run_job, on_trusted_event,
  on_untrusted_event, agent_for, dispatch, safe_prompt, process_ingress_message, set_tools,
  set_system_prompt,
}
use zier_alpha.Ingress.Handling.Limits.{Confined, IsScoped, trim_start_matches-NamesScript}
use zier_alpha.Ingress.Handling.Owned.{on_owner_command-Owned}

module _ {T : Type 0} (e : Environment T) (Scoped : T → Type 0) (msg : IngressMessage)
    (home : Option ℕ) (trust : TrustLevel) where
  chat_to_artifact-Confined :
      (a : Agent T) (message label : Text) (acts : List (Act T))
      → Confined home Scoped msg trust (chatted a.tools a.context message [])
      → ((t : Text) → Confined home Scoped msg trust (wrote t msg.source label))
      → All (Confined home Scoped msg trust) acts
      → All (Confined home Scoped msg trust) (chat_to_artifact e a message msg.source label acts)
  unfolding chat_to_artifact
  chat_to_artifact-Confined a message label acts may write h =
      go (e.answer (chatted a.tools a.context message [] ∷ acts))
    where
      go :
          (r : Answer)
          → All (Confined home Scoped msg trust) (elim r [
            | replied response ↦
                wrote response msg.source label ∷ chatted a.tools a.context message [] ∷ acts
            | approval_required _ _ ↦ chatted a.tools a.context message [] ∷ acts
            | turn_failed ↦ chatted a.tools a.context message [] ∷ acts
          ])
      go (replied response) = (write response, (may, h))
      go (approval_required x y) = (may, h)
      go turn_failed = (may, h)

keep-All {ℓ} :
    {A : Type ℓ} (P : A → Type 0) (p : A → Bool)
    → ((a : A) → p a ≡ true → P a)
    → (xs : List A) → All P (keep p xs)
keep-All P p sound [] = tt
keep-All P p sound (x ∷ xs) = elim (Bool-cases (p x)) [
  | inl kept ↦ rw kept (sound x kept, keep-All P p sound xs)
  | inr dropped ↦ rw dropped (keep-All P p sound xs)
]

All-of {ℓ} : {A : Type ℓ} (P : A → Type 0) → ((a : A) → P a) → (xs : List A) → All P xs
All-of P all [] = tt
All-of P all (x ∷ xs) = (all x, All-of P all xs)

module _ {T : Type 0} (e : Environment T) where
  -- A new session leaves the tools alone, and beginning it is all that it does.
  new_session-tools :
      (a : Agent T) (acts : List (Act T))
      → ((new_session e a acts).0.tools ≡ a.tools)
        × (((new_session e a acts).1 ≡ acts) ⊎ ((new_session e a acts).1 ≡ began ∷ acts))
  unfolding new_session
  new_session-tools a acts = elim (Option-cases (e.build_context a.tools a.status_lines acts)) [
    | inl nothing ↦ rw (new_session, nothing) (refl, inl refl)
    | inr (context, built) ↦ rw (new_session, built) (refl, inr refl)
  ]

  stateless_session-tools :
      (source : String) (a : Agent T)
      → ((stateless_session e source a).0.tools ≡ a.tools)
        × (((stateless_session e source a).1 ≡ [])
            ⊎ ((stateless_session e source a).1 ≡ began ∷ []))
  unfolding stateless_session
  stateless_session-tools source a = elim (Bool-cases (starts_with telegram (codes source))) [
    | inl chat ↦ rw (stateless_session, chat) (refl, inl refl)
    | inr other ↦ rw (stateless_session, other) (new_session-tools a [])
  ]

begun-All :
    {T : Type 0} (P : Act T → Type 0) (acts : List (Act T))
    → P began
    → ((acts ≡ []) ⊎ (acts ≡ began ∷ []))
    → All P acts
begun-All P acts h (inl e) = subst (All P) (sym e) tt
begun-All P acts h (inr e) = subst (All P) (sym e) (h, tt)

module _ {T : Type 0} (e : Environment T) (c : Setup T) where
  scoped_tools-IsScoped :
      (name : Text) → All (IsScoped e.tool_name c.jobs name) (scoped_tools e c name)
  unfolding scoped_tools
  scoped_tools-IsScoped name = elim (Option-cases (find_job name c.jobs)) [
    | inl nobody ↦ rw (scoped_tools, nobody) tt
    | inr (job, found) ↦ elim (Bool-cases (text_eq job.tool_ref (codes "all"))) [
      | inl all ↦
          rw (scoped_tools, found, all)
            (All-of (IsScoped e.tool_name c.jobs name) (λ t. (job, found, inl all)) c.base_tools)
      | inr some_names ↦
          rw (scoped_tools, found, some_names)
            (keep-All (IsScoped e.tool_name c.jobs name) _ (λ t named. (job, found, inr named))
              c.base_tools)
    ]
  ]

  module _ (msg : IngressMessage) (home : Option ℕ) where
    abbrev pub Scoped : T → Type 0
    Scoped = IsScoped e.tool_name c.jobs (job_name msg.source)

    abbrev Trusted : List (Act T) → Type 0
    Trusted acts = All (Confined home Scoped msg trusted_event) acts

    abbrev Untrusted : List (Act T) → Type 0
    Untrusted acts = All (Confined home Scoped msg untrusted_event) acts

    run_job-Trusted : (a : Agent T) (prompt : Text) → Trusted (run_job e c a msg prompt)
    unfolding run_job
    run_job-Trusted a prompt =
        let tools = scoped_tools e c (job_name msg.source) in
        let a' = set_tools tools (set_system_prompt prompt a) in
        let p = stateless_session e msg.source a' in
        let (same, begun) = stateless_session-tools e msg.source a' in
        chat_to_artifact-Confined e Scoped msg home trusted_event p.0 (codes "Execute job.")
          (codes "TrustedEvent") p.1
          (subst (All Scoped) (sym same) (scoped_tools-IsScoped (job_name msg.source))) (λ t. refl)
          (begun-All _ p.1 tt begun)

    on_trusted_event-Trusted :
        (prompts : Text → Option Text) (a : Agent T) → Trusted (on_trusted_event e prompts c a msg)
    unfolding on_trusted_event
    on_trusted_event-Trusted prompts a = elim (Bool-cases (starts_with script_prefix msg.payload)) [
      | inl script ↦
          rw (on_trusted_event, script) (trim_start_matches-NamesScript msg.payload script, tt)
      | inr other ↦ elim (Bool-cases (starts_with job_prefix msg.payload)) [
        | inr nothing ↦ rw (on_trusted_event, other, nothing) tt
        | inl job ↦ elim (Option-cases (prompts (trim_start_matches job_prefix msg.payload))) [
          | inl no_prompt ↦ rw (on_trusted_event, other, job, no_prompt) tt
          | inr (prompt, found) ↦
              rw (on_trusted_event, other, job, found) (run_job-Trusted a prompt)
        ]
      ]
    ]

    on_untrusted_event-Untrusted :
        (prompts : Text → Option Text) (a : Agent T)
        → Untrusted (on_untrusted_event e prompts a msg)
    unfolding on_untrusted_event
    on_untrusted_event-Untrusted prompts a =
        let prompt = option_or safe_prompt (prompts (codes "sanitizer")) in
        let a' = set_tools [] (set_system_prompt prompt a) in
        let p = new_session e a' [] in
        let (same, begun) = new_session-tools e a' [] in
        chat_to_artifact-Confined e Scoped msg home untrusted_event p.0 msg.payload
          (codes "UntrustedEvent") p.1 same (λ t. refl) (begun-All _ p.1 tt begun)

    pub dispatch-Confined :
        (prompts : Text → Option Text) (trust : TrustLevel) (a : Agent T)
        → chat_id_of e msg.source ≡ home
        → All (Confined home Scoped msg trust) (dispatch e prompts c trust a msg)
    unfolding dispatch
    dispatch-Confined prompts owner_command a from =
        on_owner_command-Owned e Scoped msg home from c a
    dispatch-Confined prompts trusted_event a from = on_trusted_event-Trusted prompts a
    dispatch-Confined prompts untrusted_event a from = on_untrusted_event-Untrusted prompts a

  -- Whatever the model, the scripts and the builders answer, a message makes the agent do only what its
  -- trust level allows: an owner's command writes to and asks in its own chat only and runs no scheduled
  -- script; a trusted event runs the script that it names, or turns with the tools of its job; an
  -- untrusted event runs turns without tools. Only an owner's command asks for an approval. Artifacts
  -- are of the source of the message.
  pub process_ingress_message-Confined :
      (prompts : Text → Option Text) (msg : IngressMessage)
      → All
          (Confined
            (chat_id_of e msg.source)
            (IsScoped e.tool_name c.jobs (job_name msg.source))
            msg
            msg.trust)
          (process_ingress_message e prompts c msg)
  unfolding process_ingress_message
  process_ingress_message-Confined prompts msg =
      elim (Option-cases (e.get_or_create_session msg.source)) [
        | inl nothing ↦ rw (process_ingress_message, nothing) tt
        | inr ((context, n), found) ↦
            rw (process_ingress_message, found)
              (dispatch-Confined msg (chat_id_of e msg.source) prompts msg.trust
                (agent_for e c context n) refl)
      ]
