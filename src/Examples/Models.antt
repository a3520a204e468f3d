-- ===== src/Examples/Models.antt =====
-- src/config/models.rs on a base model, a model that extends it, and two that extend each other.
use zier_alpha.Prelude.Dict
use zier_alpha.Prelude.Dict.{Dict}
use zier_alpha.Prelude.{
  ℕ, ◌≡◌, ◌≢◌, refl, String, List, [], ◌∷◌, ◌++◌, none, some, codes, true, arith,
}
use zier_alpha.Config.Schema.{
  parsed, parse_duration, unit_seconds, is_ascii_digit, value_after, all_digits,
}
use zier_alpha.Config.Schema.Durations.{Part, written, parse_duration-written}
use zier_alpha.Config.Models.{
  ModelConfig, ok, circular, not_found, out_of_fuel, collect_chain, merge, merge_children,
  merge_chain, resolve_model_config,
}
use zier_alpha.Config.Models.Ancestry.{Ancestry}
use zier_alpha.Config.Models.Merge.{
  Inherits, resolve-ne-out_of_fuel, resolve-Inherits, resolve_sound,
}

abbrev pub base : ModelConfig ℕ
base = record {
  provider = some (codes "openai");
  api_base = none;
  api_key_env = some (codes "KEY");
  model = codes "gpt-4o";
  extend = none;
  timeout = some 30;
  extra_body = none;
  fallback_models = none;
  fallback_settings = none;
  aliases = none;
  supports_vision = some true;
  tokenizer_name = none;
}

abbrev pub fast : ModelConfig ℕ
fast = record base {
  model = codes "gpt-4o-mini";
  extend = some "base";
  timeout = some 5;
  supports_vision = none;
}

abbrev pub looped : String → ModelConfig ℕ
looped parent = record base { extend = some parent }

abbrev pub models : Dict (ModelConfig ℕ)
models = ("base", base) ∷ ("fast", fast) ∷ ("a", looped "b") ∷ ("b", looped "a") ∷ []

fast-Ancestry : Ancestry models (some "fast") (fast ∷ base ∷ [])
unfolding Dict.get
fast-Ancestry = (refl, (refl, tt))

abbrev fast_final : ModelConfig ℕ
fast_final = record base { model = codes "gpt-4o-mini"; timeout = some 5 }

resolve_fast : resolve_model_config "fast" models ≡ ok (some fast_final)
unfolding resolve_model_config collect_chain merge merge_children merge_chain Dict.get
resolve_fast = refl

resolve_looped : resolve_model_config "a" models ≡ circular ("a" ∷ "b" ∷ [])
unfolding resolve_model_config collect_chain merge merge_children merge_chain Dict.get
resolve_looped = refl

resolve_unknown : resolve_model_config "c" models ≡ not_found "c"
unfolding resolve_model_config collect_chain merge merge_children merge_chain Dict.get
resolve_unknown = refl

resolve-ne-out_of_fuel_example : resolve_model_config "a" models ≢ out_of_fuel
resolve-ne-out_of_fuel_example = resolve-ne-out_of_fuel "a" models

resolve-Inherits_example :
    (final : ModelConfig ℕ) × (resolve_model_config "fast" models ≡ ok (some final))
    × Inherits final (fast ∷ base ∷ [])
    × (final.model ≡ codes "gpt-4o-mini")
resolve-Inherits_example = resolve-Inherits "fast" models fast (base ∷ []) fast-Ancestry

resolve_sound_example :
    (c : ModelConfig ℕ) × (cs : List (ModelConfig ℕ)) × Ancestry models (some "fast") (c ∷ cs)
resolve_sound_example = resolve_sound "fast" models (some fast_final) resolve_fast

-- `1h30`: the minutes have no unit.
abbrev one_hour : Part
one_hour = record { digits = 49 ∷ []; unit = 104 }

parse_duration-written_example :
    parse_duration (written (one_hour ∷ []) ++ 51 ∷ 48 ∷ []) ≡ parsed 3600
unfolding value_after unit_seconds all_digits is_ascii_digit
parse_duration-written_example =
    parse_duration-written (one_hour ∷ []) (51 ∷ 48 ∷ [])
      (record { full = refl; digits = refl; small = omega arith; known = refl }, tt) refl
      (omega arith) (omega arith)
