-- ===== src/Agent/Client/Fallback.antt =====
-- src/agent/client.rs: when a failure lets the next model try, and which key and model a provider
-- gets.
use zier_alpha.Prelude.{
  ◌≡◌, ◌≢◌, ◌↔◌, refl, ◌⊎◌, inl, inr, String, Text, List, [], ◌∷◌, Option, none, some, true, false,
  ◌==◌, arith, any, codes, Bool-cases, text_eq,
}
use zier_alpha.Config.Models.{ModelConfig, FallbackSettings}
use zier_alpha.Agent.Client.{
  Deps, Config, Failure, done, ProviderSpec, openai, anthropic, ollama, claude_cli, legacy, get_key,
  resolve_config, with_tokenizer, provider_and_model, check_fallback_allowed, any_glob, glob_match,
  error_code,
}
use zier_alpha.Agent.Client.Chat.{provider_spec}

any_glob-any :
    (d : Deps) (ps : List Text) (code : Text)
    → any_glob d ps code ≡ any (λ p. glob_match d p code) ps
unfolding any_glob
any_glob-any d [] code = refl
any_glob-any d (p ∷ ps) code = ground (arith, any_glob-any d ps code)

-- The key that a specification carries.
abbrev pub spec_key : ProviderSpec → Option Text
spec_key (openai key url model) = some key
spec_key (anthropic key url model n) = some key
spec_key (ollama url model) = none
spec_key (claude_cli command model) = none
spec_key (legacy model) = none

get_key-env :
    (d : Deps) (name var : Text) (default : Option Text) (key : Text)
    → get_key d name (some var) default ≡ done key
    → d.env_var var ≡ some key
unfolding get_key
get_key-env d name var default key h = ground arith

module _ {J : Type 0} (d : Deps) where
  -- With settings, a fallback is allowed exactly when a pattern of the allow list matches the code
  -- of the failure, or no pattern of the deny list does and the default is "allow".
  pub fallback_allowed_iff :
      (c : ModelConfig J) (s : FallbackSettings) (e : Failure)
      → c.fallback_settings ≡ some s
      → (check_fallback_allowed d e c ≡ true) ↔ (
          (any (λ p. glob_match d p (error_code d e)) s.allow ≡ true)
          ⊎ ((any (λ p. glob_match d p (error_code d e)) s.deny ≡ false)
              × ((s.default == "allow") ≡ true)))
  unfolding check_fallback_allowed
  fallback_allowed_iff c s e h =
      let code = error_code d e in
      (
        λ a. ground (arith, any_glob-any d s.allow code, any_glob-any d s.deny code),
        λ a. ground (arith, any_glob-any d s.allow code, any_glob-any d s.deny code),
      )

  -- A model that names a variable for its key gets the key of that variable, or no provider: the
  -- key of the provider's own settings never takes its place.
  pub provider_spec-env :
      (config : Config J) (c : ModelConfig J) (var key : Text) (spec : ProviderSpec)
      → c.api_key_env ≡ some var
      → provider_spec d config c ≡ done spec
      → spec_key spec ≡ some key
      → d.env_var var ≡ some key
  unfolding provider_spec get_key
  provider_spec-env config c var key spec named made has =
      let name = (provider_and_model d c).0 in
      elim (Bool-cases (text_eq name (codes "openai"))) [
        | inl a ↦ ground arith
        | inr a ↦ elim (Bool-cases (text_eq name (codes "anthropic"))) [
          | inl b ↦ ground arith
          | inr b ↦ ground arith
        ]
      ]

  -- Settings that a model resolves to always name a tokenizer.
  pub tokenizer_name-resolve_config :
      (config : Config J) (alias : String) (c : ModelConfig J)
      → resolve_config config alias ≡ done c
      → c.tokenizer_name ≢ none
  unfolding resolve_config with_tokenizer
  tokenizer_name-resolve_config config alias c h e = ground arith
