-- ===== src/Agent/Session/Tokens.antt =====
-- src/agent/session.rs: what the token count of a session stands for.
use zier_alpha.Prelude.{
  ℕ, ◌+◌, ◌-◌, ◌≤◌, ◌≡◌, refl, Text, [], ◌∷◌, ◌++◌, Option, none, some, not, arith, length, keep,
  drop, sum_of, sum_of-append, sum_of-keep, sum_of-drop-le, ltb, Bool-cases, inl, inr,
}
use zier_alpha.Agent.Messages
use zier_alpha.Agent.Messages.{Message, SessionMessage, Usage, is_system, with_metadata, usage_from}
use zier_alpha.Agent.Session.{
  Session, count_tokens_default, message_tokens, context_tokens, set_system_context, add_message,
  add_message_with_metadata, reported_tokens, summarized, truncate_history, new_with_id,
}

module _ (bpe : Option (Text → ℕ)) where
  -- The tokens of the system context and of all messages.
  abbrev pub tokens : Session → ℕ
  tokens s = context_tokens bpe s.system_context + sum_of (message_tokens bpe) s.messages

  abbrev pub IsCounted : Session → Type 0
  IsCounted s = s.token_count ≡ tokens s

  pub new-IsCounted : (now : ℕ) (cwd : Text) (id : _) → IsCounted (new_with_id now cwd id)
  unfolding new_with_id context_tokens
  new-IsCounted now cwd id = refl

  -- Setting the system context recounts.
  pub set_system_context-IsCounted :
      (c : Text) (s : Session) → IsCounted (set_system_context bpe c s)
  unfolding set_system_context
  set_system_context-IsCounted c s = refl

  pub tokens-new :
      (now : ℕ) (m : Message)
      → message_tokens bpe (Messages.new now m) ≡ count_tokens_default bpe m.content
  unfolding message_tokens Messages.new
  tokens-new now m = refl

  tokens-with_metadata :
      (now : ℕ) (m : Message) (p model : Option Text) (u : Option Usage) (stop : Option Text)
      → message_tokens bpe (with_metadata now m p model u stop) ≡ reported_tokens bpe m u
  unfolding message_tokens with_metadata reported_tokens usage_from
  tokens-with_metadata now m p model none stop = refl
  tokens-with_metadata now m p model (some u) stop = refl

  pub tokens-snoc :
      (s : Session) (m : SessionMessage)
      → sum_of (message_tokens bpe) (s.messages ++ m ∷ [])
        ≡ sum_of (message_tokens bpe) s.messages + message_tokens bpe m
  tokens-snoc s m = omega (arith, sum_of-append (message_tokens bpe) s.messages (m ∷ []))

  -- A token count that is the tokens of the context and of all messages is that again after a
  -- message is added.
  pub add_message-IsCounted :
      (now : ℕ) (m : Message) (s : Session) → IsCounted s → IsCounted (add_message bpe now m s)
  unfolding add_message
  add_message-IsCounted now m s h =
      omega (arith, tokens-snoc s (Messages.new now m), tokens-new now m)

  -- A token count that is the tokens of the context and of all messages is that again after a
  -- message is added with its metadata, whether the provider reported its usage or not.
  pub add_message_with_metadata-IsCounted :
      (now : ℕ) (m : Message) (p model : Option Text) (u : Option Usage) (stop : Option Text)
      (s : Session)
      → IsCounted s
      → IsCounted (add_message_with_metadata bpe now m p model u stop s)
  unfolding add_message_with_metadata
  add_message_with_metadata-IsCounted now m p model u stop s h = omega (
    arith,
    tokens-snoc s (with_metadata now m p model u stop),
    tokens-with_metadata now m p model u stop,
  )

  pub summarized-IsCounted : (now : ℕ) (t : Text) (s : Session) → IsCounted (summarized bpe now t s)
  unfolding summarized
  summarized-IsCounted now t s = refl

  -- From a right token count, truncation leaves a count of at least the tokens of what is left.
  pub tokens-truncate_history :
      (n : ℕ) (s : Session)
      → IsCounted s
      → tokens (truncate_history n s) ≤ (truncate_history n s).token_count
  unfolding truncate_history
  tokens-truncate_history n s h =
      let f = message_tokens bpe in
      let whole = sum_of-keep f (λ m. is_system m.message.role) s.messages in
      let first = keep (λ m. is_system m.message.role) s.messages in
      let others = keep (λ m. not (is_system m.message.role)) s.messages in
      let less = sum_of-drop-le f (length others - n) others in
      elim (Bool-cases (ltb n (length others))) [
        | inl e ↦ rw e (omega (arith, sum_of-append f first (drop (length others - n) others)))
        | inr e ↦ rw e (omega (arith, sum_of-append f first others))
      ]
