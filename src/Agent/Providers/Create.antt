-- ===== src/Agent/Providers/Create.antt =====
-- src/agent/providers.rs, `create_provider`: which provider a model name stands for. Lower case is a
-- parameter; the constructors of the providers are data.
use zier_alpha.Prelude.{
  ℕ, Text, Option, none, some, Bool, true, false, ◌||◌, codes, text_eq, starts_with, split_once,
  if◌then◌else◌,
}

-- The parts of `config.providers` and `config.agent` that are read.
pub record ProvidersConfig : Type 0 where
  pub openai : Option (Text × Text)
  pub anthropic : Option (Text × Text)
  pub ollama : Option Text
  pub claude_cli : Option (Text × Text)
  pub max_tokens : ℕ

pub data Created : Type 0 where
  openai : Text → Text → Text → Created
  anthropic : Text → Text → Text → ℕ → Created
  ollama : Text → Text → Created
  claude_cli : Text → Text → Created
  mock : Text → Created
  not_configured : Text → Created
  unknown_provider : Text → Text → Created

module _ (to_lowercase : Text → Text) where
  unfoldable pub resolve_model_alias : Text → Text
  resolve_model_alias model =
      let lowered = to_lowercase model in
      if text_eq lowered (codes "opus")
      then codes "anthropic/claude-opus-4-5"
      else if text_eq lowered (codes "sonnet")
      then codes "anthropic/claude-sonnet-4-5"
      else if text_eq lowered (codes "gpt")
      then codes "openai/gpt-4o"
      else if text_eq lowered (codes "gpt-mini")
      then codes "openai/gpt-4o-mini"
      else model

  -- `normalize_model_id("anthropic", …)`, its only use.
  unfoldable pub normalize_model_id : Text → Text
  normalize_model_id model_id =
      let lowered = to_lowercase model_id in
      if text_eq lowered (codes "claude-opus-4-5") || text_eq lowered (codes "opus")
      then codes "claude-opus-4-5-20251101"
      else if text_eq lowered (codes "claude-sonnet-4-5") || text_eq lowered (codes "sonnet")
      then codes "claude-sonnet-4-5-20250929"
      else codes "claude-opus-4-5-20251101"

  abbrev is_some {ℓ} : {A : Type ℓ} → Option A → Bool
  is_some none = false
  is_some (some a) = true

  -- The provider and the model's name there, of a model whose alias is resolved.
  unfoldable pub provider_and_id : ProvidersConfig → Text → Text × Text
  provider_and_id config model = elim (split_once 47 model) [
    | some (p, m) ↦ (to_lowercase p, m)
    | none ↦
        if starts_with (codes "gpt-") model || starts_with (codes "o1") model
        then (codes "openai", model)
        else if starts_with (codes "claude-") model
        then (codes "anthropic", model)
        else if is_some config.ollama
        then (codes "ollama", model)
        else if is_some config.anthropic
        then (codes "anthropic", model)
        else (codes "unknown", model)
  ]

  unfoldable pub create_by_name : ProvidersConfig → Text → Text → Text → Created
  unfolding normalize_model_id
  create_by_name config provider model_id model =
      if text_eq provider (codes "anthropic")
      then elim config.anthropic [
        | none ↦ not_configured provider
        | some (key, url) ↦ anthropic key url (normalize_model_id model_id) config.max_tokens
      ]
      else if text_eq provider (codes "openai")
      then elim config.openai [
        | none ↦ not_configured provider
        | some (key, url) ↦ openai key url model_id
      ]
      else if text_eq provider (codes "claude-cli")
      then claude_cli
          (elim config.claude_cli [ none ↦ codes "claude" | some (command, m) ↦ command ]) model_id
      else if text_eq provider (codes "ollama")
      then elim config.ollama [
        | none ↦ not_configured provider
        | some endpoint ↦ ollama endpoint model_id
      ]
      else if text_eq provider (codes "mock")
      then mock model_id
      else elim config.claude_cli [
        | some (command, m) ↦ claude_cli command m
        | none ↦ unknown_provider provider model
      ]

  unfoldable pub create_provider : ProvidersConfig → Text → Created
  unfolding resolve_model_alias provider_and_id create_by_name
  create_provider config name =
      let model = resolve_model_alias name in
      let (provider, model_id) = provider_and_id config model in
      create_by_name config provider model_id model
