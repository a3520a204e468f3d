-- ===== src/Examples/Client.antt =====
-- src/agent/client.rs with a provider that answers and one that is rate limited.
use zier_alpha.Prelude.Dict
use zier_alpha.Prelude.Dict.{Dict, has}
use zier_alpha.Prelude.{
  ℕ, ◌+◌, ◌≡◌, refl, Text, [], ◌∷◌, Option, none, some, codes, false, text_eq, decimal,
  if◌then◌else◌,
}
use zier_alpha.Config.Models.{
  ModelConfig, FallbackSettings, resolve_model_config, collect_chain, merge_chain, merge_children,
}
use zier_alpha.Agent.LlmError.{rate_limit, status_code}
use zier_alpha.Agent.Client.{
  Deps, Config, llm, Outcome, done, failed, ProviderSpec, openai, any_glob, glob_match, error_code,
  check_fallback_allowed, resolve_config, with_tokenizer, from_resolution, provider_and_model,
  get_key, get_url,
}
use zier_alpha.Agent.Client.Chat.{
  try_candidates, attempt, no_models, provider_spec, create_provider_from_config, after_call,
}

-- A world that counts the calls. OpenAI's models are rate limited; any other answers.
abbrev call : ProviderSpec → ℕ → Outcome Text × ℕ
call (openai key url model) w = (failed (llm (rate_limit (codes "slow down"))), w + 1)
call _ w = (done (codes "hello"), w + 1)

abbrev variables : Text → Option Text
variables name = if text_eq name (codes "KEY") then some (codes "secret") else none

abbrev deps : Deps
deps = record {
  Pattern = Text;
  Provider = ProviderSpec;
  Response = Text;
  World = ℕ;
  pattern_new = some;
  matches = text_eq;
  is_numeric = λ c. false;
  to_lowercase = λ t. t;
  env_var = variables;
  build = done;
  call = call;
  elapsed = λ w. w;
}

abbrev settings : FallbackSettings
settings = record { default = "deny"; allow = codes "429" ∷ []; deny = [] }

abbrev plain : ModelConfig ℕ
plain = record {
  provider = some (codes "ollama");
  api_base = none;
  api_key_env = none;
  model = codes "llama";
  extend = none;
  timeout = none;
  extra_body = none;
  fallback_models = none;
  fallback_settings = none;
  aliases = none;
  supports_vision = none;
  tokenizer_name = some (codes "cl100k_base");
}

abbrev main : ModelConfig ℕ
main = record plain {
  provider = some (codes "openai");
  api_key_env = some (codes "KEY");
  model = codes "gpt-4o";
  fallback_models = some ("local" ∷ []);
  fallback_settings = some settings;
}

abbrev config : Config ℕ
config = record {
  models = ("main", main) ∷ ("local", plain) ∷ [];
  openai = none;
  anthropic = none;
  ollama_endpoint = none;
  claude_cli_command = none;
  extra = [];
  max_tokens = 1000;
}

resolve_main : resolve_config config "main" ≡ done main
unfolding resolve_config with_tokenizer from_resolution Dict.get resolve_model_config collect_chain
    merge_chain merge_children
resolve_main = refl

spec_main :
    provider_spec deps config main
    ≡ done (openai (codes "secret") (codes "https://api.openai.com/v1") (codes "gpt-4o"))
unfolding provider_spec provider_and_model get_key get_url text_eq
spec_main = refl

-- The first model is called and fails, and the second answers.
run_both :
    try_candidates deps config ("main" ∷ "local" ∷ []) no_models 0
    ≡ (done (plain, codes "hello"), 2)
unfolding try_candidates attempt after_call create_provider_from_config provider_spec
    provider_and_model get_key get_url resolve_config with_tokenizer from_resolution Dict.get
    resolve_model_config collect_chain merge_chain merge_children check_fallback_allowed any_glob
    glob_match error_code status_code text_eq decimal
run_both = refl
