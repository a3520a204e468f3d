-- ===== src/Agent/Providers/Anthropic/System.antt =====
-- src/agent/providers.rs and src/agent/session.rs: the system prompt that Anthropic is sent.
use zier_alpha.Prelude.{
  ℕ, ◌≡◌, refl, ap, ◌∙◌, Text, List, [], ◌∷◌, ◌++◌, map, drop, length, ◌-◌, Option, none, some,
  false, ◌||◌, any, codes, arith, Option-cases, inl, inr,
}
use zier_alpha.Agent.Messages
use zier_alpha.Agent.Messages.{
  Role, system, user, assistant, tool, Message, SessionMessage, is_system, plain,
}
use zier_alpha.Agent.Json.{Json}
use zier_alpha.Agent.Session.{Session, summarized, messages_for_llm, keep_count}
use zier_alpha.Agent.Providers.Anthropic.{system_of, format_message, format_from, format_messages}

system_of-other :
    (role : Role) (t : Text) (old : Option Text)
    → is_system role ≡ false
    → system_of role t old ≡ old
system_of-other system t old h = absurd (cc)
system_of-other user t old h = refl
system_of-other assistant t old h = refl
system_of-other tool t old h = refl

module _ (from_str : Text → Option Json) where
  -- Messages without a system message leave the prompt as it is.
  format_from-no_system :
      (ms : List Message) (prompt : Option Text) (formatted : List Json)
      → any (λ m. is_system m.role) ms ≡ false
      → (format_from from_str ms prompt formatted).0 ≡ prompt
  unfolding format_from
  format_from-no_system [] prompt formatted h = refl
  format_from-no_system (m ∷ ms) prompt formatted h =
      format_from-no_system ms (system_of m.role m.content prompt) _ (ground arith)
      ∙ system_of-other m.role m.content prompt (ground arith)

  -- The last system message is the prompt.
  format_from-last :
      (before : List Message) (t : Text) (after : List Message) (prompt : Option Text)
      (formatted : List Json)
      → any (λ m. is_system m.role) after ≡ false
      → (format_from from_str (before ++ plain system t ∷ after) prompt formatted).0 ≡ some t
  unfolding format_from format_message
  format_from-last [] t after prompt formatted h = format_from-no_system after (some t) formatted h
  format_from-last (m ∷ before) t after prompt formatted h =
      format_from-last before t after (system_of m.role m.content prompt) _ h

  -- The summary's message of a compaction, as the model gets it.
  abbrev summary_prompt : Text → Text
  summary_prompt t = codes "Previous conversation summary:" ++ (10 ∷ 10 ∷ t)

  any-map :
      (ms : List SessionMessage)
      → any (λ m. is_system m.role) (map (λ (m : SessionMessage). m.message) ms)
        ≡ any (λ m. is_system m.message.role) ms
  any-map [] = refl
  any-map (m ∷ ms) = ap (λ b. is_system m.message.role || b) (any-map ms)

  -- After a compaction that keeps no system message among the last four, the system prompt that
  -- Anthropic is sent is the summary alone, whatever the context of the session is.
  pub format_messages-summarized :
      (bpe : Option (Text → ℕ)) (now : ℕ) (t : Text) (s : Session)
      → any (λ m. is_system m.message.role) (drop (length s.messages - keep_count) s.messages)
        ≡ false
      → (format_messages from_str (messages_for_llm (summarized bpe now t s))).0
        ≡ some (summary_prompt t)
  unfolding format_messages messages_for_llm summarized Messages.new
  format_messages-summarized bpe now t s h =
      let kept =
        map (λ (m : SessionMessage). m.message)
          (drop (length s.messages - keep_count) s.messages) in
      let none_kept : any (λ m. is_system m.role) kept ≡ false =
        any-map (drop (length s.messages - keep_count) s.messages) ∙ h in
      elim (Option-cases s.system_context) [
        | inl e ↦ rw e (format_from-last [] (summary_prompt t) kept none [] none_kept)
        | inr (context, e) ↦
            rw e (
              format_from-last (plain system context ∷ []) (summary_prompt t) kept none []
                none_kept)
      ]
