-- ===== src/Agent/Client/Chat.antt =====
-- src/agent/client.rs: the choice of a provider, and the loop over the candidate models.
use zier_alpha.Prelude.{
  ℕ, String, Text, List, [], ◌∷◌, Option, none, some, Bool, if◌then◌else◌, codes, text_eq,
  eq_ignore_ascii_case,
}
use zier_alpha.Config.Models.{ModelConfig}
use zier_alpha.Agent.Client.{
  Deps, Config, KeyAndUrl, ExtraProviderConfig, Failure, other, Outcome, done, failed, ◌>>=◌,
  ProviderSpec, openai, anthropic, ollama, claude_cli, legacy, provider_and_model, get_key, get_url,
  resolve_config, check_fallback_allowed,
}

-- `providers.extra.get(name)`, and then the search that ignores the case of ASCII letters.
unfoldable pub find_extra :
    (Text → Text → Bool) → Text → List (Text × ExtraProviderConfig) → Option ExtraProviderConfig
find_extra same name [] = none
find_extra same name ((k, e) ∷ rest) = if same k name then some e else find_extra same name rest

unfoldable pub extra_provider :
    Text → List (Text × ExtraProviderConfig) → Option ExtraProviderConfig
unfolding find_extra text_eq eq_ignore_ascii_case
extra_provider name extra = elim (find_extra text_eq name extra) [
  | some e ↦ some e
  | none ↦ find_extra eq_ignore_ascii_case name extra
]

abbrev default_url : Text → Option KeyAndUrl → Text
default_url url none = url
default_url url (some c) = c.base_url

abbrev default_key : Option KeyAndUrl → Option Text
default_key none = none
default_key (some c) = some c.api_key

abbrev or_default : Text → Option Text → Text
or_default d none = d
or_default d (some t) = t

abbrev pub no_models : Failure
no_models = other (codes "No models available")

module _ {J : Type 0} (d : Deps) (config : Config J) where
  unfoldable pub provider_spec : ModelConfig J → Outcome ProviderSpec
  provider_spec c =
      let (name, model_id) = provider_and_model d c in
      if text_eq name (codes "openai")
      then (do
        api_key ← get_key d name c.api_key_env (default_key config.openai)
        done (
            openai api_key
              (get_url c.api_base (default_url (codes "https://api.openai.com/v1") config.openai))
              model_id))
      else if text_eq name (codes "anthropic")
      then (do
        api_key ← get_key d name c.api_key_env (default_key config.anthropic)
        done (
            anthropic api_key
              (get_url c.api_base
                (default_url (codes "https://api.anthropic.com") config.anthropic))
              model_id config.max_tokens))
      else if text_eq name (codes "ollama")
      then done (
          ollama
            (get_url c.api_base
              (or_default (codes "http://localhost:11434") config.ollama_endpoint))
            model_id)
      else if text_eq name (codes "claude-cli")
      then done (claude_cli (or_default (codes "claude") config.claude_cli_command) model_id)
      else elim (extra_provider name config.extra) [
        | some e ↦ do
          api_key ← get_key d name c.api_key_env e.api_key
          done (openai api_key (get_url c.api_base e.base_url) model_id)
        | none ↦ done (legacy c.model)
      ]

  unfoldable pub create_provider_from_config : ModelConfig J → Outcome d.Provider
  create_provider_from_config c = do spec ← provider_spec c; d.build spec

  -- How one candidate ends: not usable, answered, failed with fallback denied or allowed.
  pub data Attempt : Type 0 where
    skipped : Attempt
    answered : ModelConfig J → d.Response → d.World → Attempt
    denied : Failure → d.World → Attempt
    fell_through : Failure → d.World → Attempt

  unfoldable pub after_call : ModelConfig J → Outcome d.Response × d.World → Attempt
  after_call c (done r, w) = answered c r w
  after_call c (failed e, w) = if check_fallback_allowed d e c then fell_through e w else denied e w

  -- One round of the loop of `chat` and of `chat_stream`.
  unfoldable pub attempt : String → d.World → Attempt
  attempt alias w = elim (resolve_config config alias) [
    | failed e ↦ skipped
    | done c ↦ elim (create_provider_from_config c) [
      | failed e ↦ skipped
      | done p ↦ after_call c (d.call p w)
    ]
  ]

  unfoldable pub try_candidates :
      List String → Failure → d.World → Outcome (ModelConfig J × d.Response) × d.World
  try_candidates [] last_error w = (failed last_error, w)
  try_candidates (alias ∷ rest) last_error w = elim (attempt alias w) [
    | skipped ↦ try_candidates rest last_error w
    | answered c r w' ↦ (done (c, r), w')
    | denied e w' ↦ (failed e, w')
    | fell_through e w' ↦ try_candidates rest e w'
  ]

  -- The model that was asked for, then its fallbacks.
  unfoldable pub candidates : String → List String
  candidates model_alias = elim (resolve_config config model_alias) [
    | failed e ↦ model_alias ∷ []
    | done c ↦ elim c.fallback_models [ none ↦ model_alias ∷ [] | some fb ↦ model_alias ∷ fb ]
  ]

  abbrev pub stream_of :
      Outcome (ModelConfig J × d.Response) × d.World → Outcome d.Response × d.World
  stream_of (failed e, w) = (failed e, w)
  stream_of (done (c, r), w) = (done r, w)

  -- `chat_stream`, whose response is the stream. It calls the provider's `chat_stream`, so `d.call`
  -- is that method here and the provider's `chat` below.
  unfoldable pub chat_stream : String → d.World → Outcome d.Response × d.World
  chat_stream model_alias w = stream_of (try_candidates (candidates model_alias) no_models w)

  pub record SmartResponse : Type 0 where
    pub response : d.Response
    pub used_model : Text
    pub provider_name : Text
    pub latency_ms : ℕ

  abbrev pub smart_response : ModelConfig J → d.Response → d.World → SmartResponse
  smart_response c r w = record {
    response = r;
    used_model = c.model;
    provider_name = (provider_and_model d c).0;
    latency_ms = d.elapsed w;
  }

  abbrev pub smart :
      Outcome (ModelConfig J × d.Response) × d.World → Outcome SmartResponse × d.World
  smart (failed e, w) = (failed e, w)
  smart (done (c, r), w) = (done (smart_response c r w), w)

  -- `chat`, which says which model and provider answered.
  unfoldable pub chat : String → d.World → Outcome SmartResponse × d.World
  chat model_alias w = smart (try_candidates (candidates model_alias) no_models w)

  -- `summarize` takes the primary model only; a provider's answer to it is another call.
  unfoldable pub summarize :
      (d.Provider → Text → d.World → Outcome Text × d.World)
      → String
      → Text
      → d.World
      → Outcome Text × d.World
  summarize call_summary model_alias text w = elim (resolve_config config model_alias) [
    | failed e ↦ (failed e, w)
    | done c ↦ elim (create_provider_from_config c) [
      | failed e ↦ (failed e, w)
      | done p ↦ call_summary p text w
    ]
  ]
