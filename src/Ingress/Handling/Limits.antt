-- ===== src/Ingress/Handling/Limits.antt =====
-- src/ingress/handler.rs: the acts that a message may lead to, by its trust level.
use zier_alpha.Prelude.{
  ℕ, zero, suc, ◌≡◌, ◌⊎◌, Text, List, [], ◌∷◌, ◌++◌, Option, some, true, false, All, starts_with,
  codes, any, text_eq, ◌≤◌, arith, ap, refl, drop, length, length-drop, Bool-cases, inl, inr, ◌∙◌,
}
use zier_alpha.Prelude.Replace.{starts_with-append}
use zier_alpha.Ingress.Types.{
  TrustLevel, owner_command, trusted_event, untrusted_event, IngressMessage,
}
use zier_alpha.Ingress.Handling.{
  Act, began, chatted, asked, sent, wrote, ran_script, JobConfig, script_prefix, find_job,
  allowed_names, trim_start_matches, trim_prefixes,
}

abbrev prefixed : ℕ → Text → Text
prefixed zero s = s
prefixed (suc n) s = codes "EXECUTE_SCRIPT: " ++ prefixed n s

-- The payload is the script after the mark of a script, which may stand several times.
abbrev pub NamesScript : Text → Text → Type 0
NamesScript payload s =
    (n : ℕ) × (payload ≡ prefixed (suc n) s) × (starts_with (codes "EXECUTE_SCRIPT: ") s ≡ false)

-- With fuel for the whole text, the marks at the start all go.
trim_prefixes-prefixed :
    (fuel : ℕ) (t : Text)
    → length t ≤ fuel
    → (n : ℕ) × (t ≡ prefixed n (trim_prefixes fuel script_prefix t))
      × (starts_with script_prefix (trim_prefixes fuel script_prefix t) ≡ false)
unfolding trim_prefixes starts_with
trim_prefixes-prefixed zero [] h = (0, refl, refl)
trim_prefixes-prefixed zero (c ∷ t) h = absurd (omega arith)
trim_prefixes-prefixed (suc fuel) t h = elim (Bool-cases (starts_with script_prefix t)) [
  | inr done ↦ (0, rw done refl, rw done done)
  | inl more ↦
      let whole = starts_with-append script_prefix t more in
      let (n, same, last) =
        trim_prefixes-prefixed fuel (drop (length script_prefix) t)
          (omega (arith, length-drop (length script_prefix) t)) in
      (suc n, rw more (whole ∙ ap (λ s. script_prefix ++ s) same), rw more last)
]

-- What `trim_start_matches` leaves of a text that begins with the mark.
pub trim_start_matches-NamesScript :
    (payload : Text)
    → starts_with script_prefix payload ≡ true
    → NamesScript payload (trim_start_matches script_prefix payload)
unfolding trim_start_matches
trim_start_matches-NamesScript payload h =
    go (trim_prefixes-prefixed (length payload) payload (omega arith))
  where
    go :
        ((n : ℕ) × (payload ≡ prefixed n (trim_start_matches script_prefix payload))
          × (starts_with script_prefix (trim_start_matches script_prefix payload) ≡ false))
        → NamesScript payload (trim_start_matches script_prefix payload)
    go (zero, whole, last) =
        let none_there : starts_with script_prefix payload ≡ false = rw whole last in absurd (cc)
    go (suc n, whole, last) = (n, whole, last)

module _ {T : Type 0} where
  -- What an act may be, where `home` is the chat that the message comes from and `Scoped` tells the
  -- tools that its job may use. The owner is written to and asked in that chat only. A trusted event
  -- runs the script that it names, or a turn with tools of its job. An untrusted event runs turns
  -- without tools. Neither of these asks for an approval or continues a turn. Artifacts are of the
  -- message's source.
  abbrev pub Confined : Option ℕ → (T → Type 0) → IngressMessage → TrustLevel → Act T → Type 0
  Confined home Scoped msg owner_command (sent id t) = home ≡ some id
  Confined home Scoped msg owner_command (asked id tool_name call) = home ≡ some id
  Confined home Scoped msg owner_command (ran_script s) = ⊥
  Confined home Scoped msg owner_command (wrote t source label) = source ≡ msg.source
  Confined home Scoped msg owner_command _ = Unit
  Confined home Scoped msg trusted_event began = Unit
  Confined home Scoped msg trusted_event (ran_script s) = NamesScript msg.payload s
  Confined home Scoped msg trusted_event (chatted tools context t images) = All Scoped tools
  Confined home Scoped msg trusted_event (wrote t source label) = source ≡ msg.source
  Confined home Scoped msg trusted_event _ = ⊥
  Confined home Scoped msg untrusted_event began = Unit
  Confined home Scoped msg untrusted_event (chatted tools context t images) = tools ≡ []
  Confined home Scoped msg untrusted_event (wrote t source label) = source ≡ msg.source
  Confined home Scoped msg untrusted_event _ = ⊥

-- A tool that a job may use: one that its setting names, or any if that says all.
abbrev pub IsScoped : {T : Type 0} → (T → Text) → List JobConfig → Text → T → Type 0
IsScoped tool_name jobs name t =
    (job : JobConfig) × (find_job name jobs ≡ some job)
    × ((text_eq job.tool_ref (codes "all") ≡ true)
        ⊎ (any (text_eq (tool_name t)) (allowed_names job.tool_ref) ≡ true))
