-- ===== src/Ingress/Handling/Prompts.antt =====
-- src/ingress/handler.rs: what becomes of the prompts of the sanitizer and of a job.
use zier_alpha.Prelude.{
  ◌≡◌, refl, Text, List, [], Option, none, some, Bool, true, false, starts_with, codes, Bool-cases,
  Option-cases, inl, inr,
}
use zier_alpha.Agent.Skills.{option_or}
use zier_alpha.Ingress.Types.{
  TrustLevel, owner_command, trusted_event, untrusted_event, IngressMessage,
}
use zier_alpha.Ingress.Handling.{
  Agent, Act, Environment, Setup, telegram, script_prefix, job_prefix, trim_start_matches,
  new_session, scoped_tools, stateless_session, run_job, on_trusted_event, on_untrusted_event,
  job_name, agent_for, dispatch, process_ingress_message, set_tools, set_system_prompt, safe_prompt,
}

abbrev pub is_known : Option Text → Bool
is_known none = false
is_known (some t) = true

module _ {T : Type 0} (e : Environment T) (c : Setup T) (msg : IngressMessage)
    (builds : (tools : List T) (status : List Text) (acts : List (Act T))
      → (context : Text) × (e.build_context tools status acts ≡ some context))
    (other : starts_with telegram (codes msg.source) ≡ false) where
  -- The context of a new session takes the place of the one that was there.
  new_session-prompt :
      (tools : List T) (a : Agent T) (p q : Text)
      → new_session e (set_tools tools (set_system_prompt p a)) []
        ≡ new_session e (set_tools tools (set_system_prompt q a)) []
  unfolding new_session
  new_session-prompt tools a p q =
      let (context, built) = builds tools a.status_lines [] in rw (new_session, built)

  run_job-prompt : (a : Agent T) (p q : Text) → run_job e c a msg p ≡ run_job e c a msg q
  unfolding run_job stateless_session
  run_job-prompt a p q = rw (
    run_job,
    stateless_session,
    other,
    new_session-prompt (scoped_tools e c (job_name msg.source)) a p q,
  )

  on_trusted_event-prompts :
      (prompts prompts' : Text → Option Text) (a : Agent T)
      → ((r : Text) → is_known (prompts r) ≡ is_known (prompts' r))
      → on_trusted_event e prompts c a msg ≡ on_trusted_event e prompts' c a msg
  unfolding on_trusted_event
  on_trusted_event-prompts prompts prompts' a same =
      elim (Bool-cases (starts_with script_prefix msg.payload)) [
        | inl script ↦ rw (on_trusted_event, script)
        | inr no_script ↦ elim (Bool-cases (starts_with job_prefix msg.payload)) [
          | inr no_job ↦ rw (on_trusted_event, no_script, no_job)
          | inl job ↦
              rw (on_trusted_event, no_script, job) (go (prompts ref) (prompts' ref) (same ref))
        ]
      ]
    where
      ref : Text
      ref = trim_start_matches job_prefix msg.payload

      go :
          (o o' : Option Text)
          → is_known o ≡ is_known o'
          → ◌≡◌ {A = List (Act T)}
              (elim o [ none ↦ [] | some p ↦ run_job e c a msg p ])
              (elim o' [ none ↦ [] | some p ↦ run_job e c a msg p ])
      go none none h = refl
      go none (some p) h = absurd (cc)
      go (some p) none h = absurd (cc)
      go (some p) (some q) h = run_job-prompt a p q

  on_untrusted_event-prompts :
      (prompts prompts' : Text → Option Text) (a : Agent T)
      → on_untrusted_event e prompts a msg ≡ on_untrusted_event e prompts' a msg
  unfolding on_untrusted_event
  on_untrusted_event-prompts prompts prompts' a = rw (
    on_untrusted_event,
    new_session-prompt [] a (option_or safe_prompt (prompts (codes "sanitizer")))
        (option_or safe_prompt (prompts' (codes "sanitizer"))),
  )

  dispatch-prompts :
      (prompts prompts' : Text → Option Text) (trust : TrustLevel) (a : Agent T)
      → ((r : Text) → is_known (prompts r) ≡ is_known (prompts' r))
      → dispatch e prompts c trust a msg ≡ dispatch e prompts' c trust a msg
  unfolding dispatch
  dispatch-prompts prompts prompts' owner_command a same = refl
  dispatch-prompts prompts prompts' trusted_event a same =
      on_trusted_event-prompts prompts prompts' a same
  dispatch-prompts prompts prompts' untrusted_event a same =
      on_untrusted_event-prompts prompts prompts' a

  -- Where the context of a new session can always be built, the texts of the prompts mean nothing for a
  -- message that is not from Telegram: with the same names of prompts everything is done in the same
  -- way, so that neither the sanitizer's prompt nor a job's ever reaches the model.
  pub process_ingress_message-prompts :
      (prompts prompts' : Text → Option Text)
      → ((r : Text) → is_known (prompts r) ≡ is_known (prompts' r))
      → process_ingress_message e prompts c msg ≡ process_ingress_message e prompts' c msg
  unfolding process_ingress_message
  process_ingress_message-prompts prompts prompts' same =
      elim (Option-cases (e.get_or_create_session msg.source)) [
        | inl nothing ↦ rw (process_ingress_message, nothing)
        | inr ((context, n), found) ↦
            rw (process_ingress_message, found)
              (dispatch-prompts prompts prompts' msg.trust (agent_for e c context n) same)
      ]
