-- ===== src/Agent/Session/Covered.antt =====
-- src/agent/session.rs: the token count never falls below what it counts.
use zier_alpha.Prelude.{
  ℕ, ◌+◌, ◌-◌, ◌≤◌, ◌≡◌, refl, ap, Text, List, [], ◌∷◌, Option, not, arith, length, keep, drop,
  sum_of, sum_of-append, sum_of-keep, sum_of-drop-le, ltb, is_empty, Bool-cases, inl, inr,
}
use zier_alpha.Agent.Messages
use zier_alpha.Agent.Messages.{Message, SessionMessage, is_system}
use zier_alpha.Agent.Session.{
  Session, message_tokens, add_message, add_metadata_to_last_message, update_last, truncate_history,
  mark_memory_flushed, summarized, compact_native, to_summarize,
}
use zier_alpha.Agent.Session.Tokens.{tokens, tokens-snoc, tokens-new}
use zier_alpha.Agent.Client.{Outcome, Outcome-cases}

module _ (bpe : Option (Text → ℕ)) where
  -- The stored count is at least the tokens of the context and of all messages.
  abbrev pub IsCovered : Session → Type 0
  IsCovered s = tokens bpe s ≤ s.token_count

  pub add_message-IsCovered :
      (now : ℕ) (m : Message) (s : Session) → IsCovered s → IsCovered (add_message bpe now m s)
  unfolding add_message
  add_message-IsCovered now m s h =
      omega (arith, tokens-snoc bpe s (Messages.new now m), tokens-new bpe now m)

  tokens-update_last :
      (name : Option Text) (latency : Option ℕ) (ms : List SessionMessage)
      → sum_of (message_tokens bpe) (update_last name latency ms) ≡ sum_of (message_tokens bpe) ms
  unfolding update_last message_tokens
  tokens-update_last name latency [] = refl
  tokens-update_last name latency (m ∷ []) = refl
  tokens-update_last name latency (m ∷ m' ∷ ms) =
      ap (λ n. message_tokens bpe m + n) (tokens-update_last name latency (m' ∷ ms))

  pub add_metadata-IsCovered :
      (name : Option Text) (latency : Option ℕ) (s : Session)
      → IsCovered s
      → IsCovered (add_metadata_to_last_message name latency s)
  unfolding add_metadata_to_last_message
  add_metadata-IsCovered name latency s h = elim (Bool-cases (is_empty s.messages)) [
    | inl none_yet ↦ rw none_yet h
    | inr some_last ↦ rw some_last (omega (arith, tokens-update_last name latency s.messages))
  ]

  pub mark_memory_flushed-IsCovered :
      (s : Session) → IsCovered s → IsCovered (mark_memory_flushed s)
  unfolding mark_memory_flushed
  mark_memory_flushed-IsCovered s h = h

  pub truncate_history-IsCovered :
      (n : ℕ) (s : Session) → IsCovered s → IsCovered (truncate_history n s)
  unfolding truncate_history
  truncate_history-IsCovered n s h =
      let f = message_tokens bpe in
      let whole = sum_of-keep f (λ m. is_system m.message.role) s.messages in
      let first = keep (λ m. is_system m.message.role) s.messages in
      let others = keep (λ m. not (is_system m.message.role)) s.messages in
      let less = sum_of-drop-le f (length others - n) others in
      elim (Bool-cases (ltb n (length others))) [
        | inl e ↦ rw e (omega (arith, sum_of-append f first (drop (length others - n) others)))
        | inr e ↦ rw e (omega (arith, sum_of-append f first others))
      ]

  summarized-IsCovered : (now : ℕ) (t : Text) (s : Session) → IsCovered (summarized bpe now t s)
  unfolding summarized
  summarized-IsCovered now t s = omega arith

  pub compact_native-IsCovered {ℓ} :
      {W : Type ℓ} (summarize : Text → W → Outcome Text × W) (now : ℕ) (s : Session) (w : W)
      → IsCovered s
      → IsCovered (compact_native bpe summarize now s w).1
  unfolding compact_native
  compact_native-IsCovered summarize now s w h = elim (Bool-cases (ltb (length s.messages) 4)) [
    | inl few ↦ rw (compact_native, few) h
    | inr many ↦ elim (Outcome-cases (summarize (to_summarize s) w).0) [
      | inl (e, bad) ↦ rw (compact_native, many, bad) h
      | inr (t, good) ↦ rw (compact_native, many, good) (summarized-IsCovered now t s)
    ]
  ]
