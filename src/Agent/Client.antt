-- ===== src/Agent/Client.antt =====
-- src/agent/client.rs: `SmartClient`, which tries a model and then its fallbacks.
-- What the code takes from elsewhere is the record `Deps`: the glob matcher, two Unicode tables, the
-- environment, and the providers, whose calls change a state `World`. `J` is the type of JSON values.
pub mod Fallback
pub mod Chat
pub mod Trials
use zier_alpha.Prelude.Dict
use zier_alpha.Prelude.Dict.{Dict}
use zier_alpha.Prelude.{
  ℕ, ◌≡◌, ◌⊎◌, inl, inr, refl, zero, suc, String, Text, List, [], ◌∷◌, ◌++◌, Option, none, some,
  Bool, true, false, ◌&&◌, ◌==◌, ◌||◌, nat_eq, if◌then◌else◌, all, any, codes, decimal,
  split_whitespace, byte_len, text_eq, starts_with, contains, split_once, eq_ignore_ascii_case,
}
use zier_alpha.Config.Models.{
  ModelConfig, FallbackSettings, Resolution, ok, circular, not_found, out_of_fuel,
  resolve_model_config,
}
use zier_alpha.Agent.LlmError.{LlmError, status_code}

-- `anyhow::Error`: a provider's error, or another one by its text.
pub data Failure : Type 0 where
  llm : LlmError → Failure
  other : Text → Failure

pub data Outcome {ℓ} (A : Type ℓ) : Type ℓ where
  done : A → Outcome A
  failed : Failure → Outcome A

infixl 5 ◌>>=◌
abbrev pub ◌>>=◌ {ℓ κ} : {A : Type ℓ} {B : Type κ} → Outcome A → (A → Outcome B) → Outcome B
done a >>= f = f a
failed e >>= f = failed e

pub Outcome-cases {ℓ} :
    {A : Type ℓ} (o : Outcome A) → ((e : Failure) × (o ≡ failed e)) ⊎ ((a : A) × (o ≡ done a))
Outcome-cases (failed e) = inl (e, refl)
Outcome-cases (done a) = inr (a, refl)

-- The provider that `create_provider_from_config` decides to build.
pub data ProviderSpec : Type 0 where
  openai : Text → Text → Text → ProviderSpec
  anthropic : Text → Text → Text → ℕ → ProviderSpec
  ollama : Text → Text → ProviderSpec
  claude_cli : Text → Text → ProviderSpec
  legacy : Text → ProviderSpec

pub record Deps : Type 1 where
  pub Pattern : Type 0
  pub Provider : Type 0
  pub Response : Type 0
  pub World : Type 0
  pub pattern_new : Text → Option Pattern
  pub matches : Pattern → Text → Bool
  pub is_numeric : ℕ → Bool
  pub to_lowercase : Text → Text
  pub env_var : Text → Option Text
  pub build : ProviderSpec → Outcome Provider
  pub call : Provider → World → Outcome Response × World
  pub elapsed : World → ℕ

pub record KeyAndUrl : Type 0 where
  pub api_key : Text
  pub base_url : Text

pub record ExtraProviderConfig : Type 0 where
  pub api_key : Option Text
  pub base_url : Text

-- The parts of `Config` that the client reads.
pub record Config (J : Type 0) : Type 0 where
  pub models : Dict (ModelConfig J)
  pub openai : Option KeyAndUrl
  pub anthropic : Option KeyAndUrl
  pub ollama_endpoint : Option Text
  pub claude_cli_command : Option Text
  pub extra : List (Text × ExtraProviderConfig)
  pub max_tokens : ℕ

-- `find(|w| …)` over the words of a message, with the default "500".
unfoldable pub legacy_code : (ℕ → Bool) → List Text → Text
legacy_code is_numeric [] = codes "500"
legacy_code is_numeric (w ∷ ws) =
    if all is_numeric w && nat_eq (byte_len w) 3 then w else legacy_code is_numeric ws

unfoldable pub error_code : Deps → Failure → Text
error_code d (llm e) = elim (status_code e) [ some code ↦ decimal code | none ↦ codes "500" ]
error_code d (other message) = legacy_code d.is_numeric (split_whitespace message)

-- A pattern that does not parse matches nothing.
unfoldable pub glob_match : Deps → Text → Text → Bool
glob_match d pattern text = elim (d.pattern_new pattern) [
  | some p ↦ d.matches p text
  | none ↦ false
]

-- A loop over the patterns that stops at the first match.
unfoldable pub any_glob : Deps → List Text → Text → Bool
any_glob d [] code = false
any_glob d (p ∷ ps) code = if glob_match d p code then true else any_glob d ps code

unfoldable pub detect_tokenizer : Text → Text
detect_tokenizer model =
    if contains (codes "gpt-4o") model || contains (codes "o1") model
    then codes "o200k_base"
    else codes "cl100k_base"

unfoldable pub parse_provider_model : Deps → Text → Text × Text
parse_provider_model d s = elim (split_once 47 s) [
  | some (p, m) ↦ (d.to_lowercase p, m)
  | none ↦
      if starts_with (codes "gpt-") s || starts_with (codes "o1") s
      then (codes "openai", s)
      else if starts_with (codes "claude-") s
      then (codes "anthropic", s)
      else (codes "unknown", s)
]

-- The closure `get_key`.
unfoldable pub get_key : Deps → Text → Option Text → Option Text → Outcome Text
get_key d provider_name (some var) default = elim (d.env_var var) [
  | some key ↦ done key
  | none ↦ failed (other (codes "Missing env var: " ++ var))
]
get_key d provider_name none (some default) = done default
get_key d provider_name none none = failed (other (codes "No API key found for " ++ provider_name))

-- The closure `get_url`.
unfoldable pub get_url : Option Text → Text → Text
get_url (some url) default = url
get_url none default = default

module _ {J : Type 0} where
  -- A model that the map does not have: the alias is the model's name.
  abbrev pub plain_model : String → ModelConfig J
  plain_model alias = record {
    provider = none;
    api_base = none;
    api_key_env = none;
    model = codes alias;
    extend = none;
    timeout = none;
    extra_body = none;
    fallback_models = none;
    fallback_settings = none;
    aliases = none;
    supports_vision = none;
    tokenizer_name = none;
  }

  unfoldable pub with_tokenizer : ModelConfig J → ModelConfig J
  with_tokenizer c = elim c.tokenizer_name [
    | none ↦ record c { tokenizer_name = some (detect_tokenizer c.model) }
    | some t ↦ c
  ]

  -- The error texts of `resolve_model_config`. Its last two cases do not arise.
  unfoldable pub from_resolution : Resolution (Option (ModelConfig J)) → Outcome (ModelConfig J)
  from_resolution (ok (some c)) = done c
  from_resolution (circular visited) =
      failed (other (codes "Circular dependency detected in model config"))
  from_resolution (not_found key) = failed (other (codes "Model config not found: " ++ codes key))
  from_resolution (ok none) = failed (other [])
  from_resolution out_of_fuel = failed (other [])

  unfoldable pub resolve_config : Config J → String → Outcome (ModelConfig J)
  resolve_config config alias = do
    c ← elim (Dict.get alias config.models) [
      | some _ ↦ from_resolution (resolve_model_config alias config.models)
      | none ↦ done (plain_model alias)
    ]
    done (with_tokenizer c)

  unfoldable pub check_fallback_allowed : Deps → Failure → ModelConfig J → Bool
  check_fallback_allowed d error c = elim c.fallback_settings [
    | none ↦ true
    | some settings ↦
        if any_glob d settings.allow (error_code d error)
        then true
        else if any_glob d settings.deny (error_code d error)
        then false
        else settings.default == "allow"
  ]

  unfoldable pub provider_and_model : Deps → ModelConfig J → Text × Text
  provider_and_model d c = elim c.provider [
    | some p ↦ (d.to_lowercase p, c.model)
    | none ↦ parse_provider_model d c.model
  ]
