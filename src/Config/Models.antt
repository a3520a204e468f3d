-- ===== src/Config/Models.antt =====
-- src/config/models.rs: model settings that inherit from one another, and their resolution.
-- `J` is the type of `serde_json::Value`. The loop that follows the parents takes fuel.
pub mod Chain
pub mod Ancestry
pub mod Merge
use mathlib.Core.List.{reverse}
use zier_alpha.Prelude.Dict
use zier_alpha.Prelude.Dict.{Dict, has}
use zier_alpha.Prelude.{
  ℕ, zero, suc, ◌+◌, String, Text, List, [], ◌∷◌, ◌++◌, Option, none, some, Bool, if◌then◌else◌,
  length,
}

pub record FallbackSettings : Type 0 where
  pub default : String
  pub allow : List Text
  pub deny : List Text

pub record ModelConfig (J : Type 0) : Type 0 where
  pub provider : Option Text
  pub api_base : Option Text
  pub api_key_env : Option Text
  pub model : Text
  pub extend : Option String
  pub timeout : Option ℕ
  pub extra_body : Option J
  pub fallback_models : Option (List String)
  pub fallback_settings : Option FallbackSettings
  pub aliases : Option (List String)
  pub supports_vision : Option Bool
  pub tokenizer_name : Option Text

-- The two errors carry what their messages show. `out_of_fuel` is the model's own.
pub data Resolution {ℓ} (A : Type ℓ) : Type ℓ where
  ok : A → Resolution A
  circular : List String → Resolution A
  not_found : String → Resolution A
  out_of_fuel : Resolution A

infixl 5 ◌>>=◌
abbrev pub ◌>>=◌ {ℓ κ} :
    {A : Type ℓ} {B : Type κ} → Resolution A → (A → Resolution B) → Resolution B
ok a >>= f = f a
circular v >>= f = circular v
not_found k >>= f = not_found k
out_of_fuel >>= f = out_of_fuel

-- `if let Some(v) = &child.field { final.field = Some(v) }`
abbrev pub override {ℓ} : {A : Type ℓ} → Option A → Option A → Option A
override none old = old
override (some v) old = some v

module _ {J : Type 0} where
  -- Part 1: the chain from the key to its last ancestor.
  unfoldable pub collect_chain :
      ℕ → Dict (ModelConfig J) → String → List String → Resolution (List (ModelConfig J))
  collect_chain zero models current_key visited = out_of_fuel
  collect_chain (suc fuel) models current_key visited = elim (Dict.get current_key models) [
    | none ↦ not_found current_key
    | some config ↦ elim config.extend [
      | none ↦ ok (config ∷ [])
      | some parent ↦
          let rest = collect_chain fuel models parent (visited ++ parent ∷ []) in
          if has parent visited
          then circular visited
          else (do configs ← rest; ok (config ∷ configs))
    ]
  ]

  -- One round of part 2: what the child sets replaces what was inherited.
  unfoldable pub merge : ModelConfig J → ModelConfig J → ModelConfig J
  merge final child = record final {
    provider = override child.provider final.provider;
    api_base = override child.api_base final.api_base;
    api_key_env = override child.api_key_env final.api_key_env;
    model = child.model;
    timeout = override child.timeout final.timeout;
    extra_body = override child.extra_body final.extra_body;
    fallback_models = override child.fallback_models final.fallback_models;
    fallback_settings = override child.fallback_settings final.fallback_settings;
    aliases = override child.aliases final.aliases;
    supports_vision = override child.supports_vision final.supports_vision;
    tokenizer_name = override child.tokenizer_name final.tokenizer_name;
  }

  unfoldable pub merge_children : ModelConfig J → List (ModelConfig J) → ModelConfig J
  merge_children final [] = final
  merge_children final (child ∷ rest) = merge_children (merge final child) rest

  -- `config_chain[0]`, which would panic on an empty chain, and the loop over the others.
  unfoldable pub merge_chain : List (ModelConfig J) → Option (ModelConfig J)
  merge_chain [] = none
  merge_chain (root ∷ children) = some (merge_children root children)

  -- The fuel: one round for each model, one for a key that is no model, one to stop.
  abbrev pub rounds : Dict (ModelConfig J) → ℕ
  rounds models = length models + 2

  unfoldable pub resolve_model_config :
      String → Dict (ModelConfig J) → Resolution (Option (ModelConfig J))
  resolve_model_config model_key models = do
    config_chain ← collect_chain (rounds models) models model_key (model_key ∷ [])
    ok (merge_chain (reverse config_chain))
