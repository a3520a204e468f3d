-- ===== src/Config/Models/Merge.antt =====
-- src/config/models.rs: what the merged settings are, and when there are any.
use mathlib.Core.List.{reverse, reverse-cons}
use zier_alpha.Prelude.Dict.{Dict}
use zier_alpha.Prelude.{
  ◌≡◌, ◌≢◌, refl, ap, ◌∙◌, String, List, [], ◌∷◌, ◌++◌, Option, none, some, arith, inl, inr,
  Option-cases,
}
use zier_alpha.Config.Models.{
  ModelConfig, Resolution, ok, circular, not_found, out_of_fuel, ◌>>=◌, override, collect_chain,
  rounds, merge, merge_children, merge_chain, resolve_model_config,
}
use zier_alpha.Config.Models.Chain.{collect_chain-fuel, unvisited-le}
use zier_alpha.Config.Models.Ancestry.{Ancestry, collect_chain-Ancestry, collect_chain_complete}

override-none {ℓ} : {A : Type ℓ} (o : Option A) → o ≡ override o none
override-none none = refl
override-none (some a) = refl

module _ {J : Type 0} where
  merge_children-snoc :
      (y : ModelConfig J) (ys : List (ModelConfig J)) (c : ModelConfig J)
      → merge_children y (ys ++ c ∷ []) ≡ merge (merge_children y ys) c
  unfolding merge_children
  merge_children-snoc y [] c = refl
  merge_children-snoc y (x ∷ ys) c = merge_children-snoc (merge y x) ys c

  merge_chain-snoc :
      (xs : List (ModelConfig J)) (r c : ModelConfig J)
      → merge_chain xs ≡ some r
      → merge_chain (xs ++ c ∷ []) ≡ some (merge r c)
  unfolding merge_chain
  merge_chain-snoc [] r c h = absurd (cc)
  merge_chain-snoc (x ∷ xs) r c h =
      let same : merge_children x xs ≡ r = cc in
      ap some (merge_children-snoc x xs c ∙ ap (λ y. merge y c) same)

  -- The first value that a key's line of ancestors sets, the key's own first.
  abbrev pub nearest {ℓ} :
      {A : Type ℓ} → (ModelConfig J → Option A) → List (ModelConfig J) → Option A
  nearest f [] = none
  nearest f (c ∷ cs) = override (f c) (nearest f cs)

  -- Every setting but the model's name and the parent is inherited from the nearest that sets it.
  pub record Inherits (final : ModelConfig J) (cs : List (ModelConfig J)) : Type 0 where
    pub provider : final.provider ≡ nearest (λ c. c.provider) cs
    pub api_base : final.api_base ≡ nearest (λ c. c.api_base) cs
    pub api_key_env : final.api_key_env ≡ nearest (λ c. c.api_key_env) cs
    pub extend : final.extend ≡ none
    pub timeout : final.timeout ≡ nearest (λ c. c.timeout) cs
    pub extra_body : final.extra_body ≡ nearest (λ c. c.extra_body) cs
    pub fallback_models : final.fallback_models ≡ nearest (λ c. c.fallback_models) cs
    pub fallback_settings : final.fallback_settings ≡ nearest (λ c. c.fallback_settings) cs
    pub aliases : final.aliases ≡ nearest (λ c. c.aliases) cs
    pub supports_vision : final.supports_vision ≡ nearest (λ c. c.supports_vision) cs
    pub tokenizer_name : final.tokenizer_name ≡ nearest (λ c. c.tokenizer_name) cs

  Inherits-root : (c : ModelConfig J) → c.extend ≡ none → Inherits c (c ∷ [])
  Inherits-root c x = record {
    provider = override-none c.provider;
    api_base = override-none c.api_base;
    api_key_env = override-none c.api_key_env;
    extend = x;
    timeout = override-none c.timeout;
    extra_body = override-none c.extra_body;
    fallback_models = override-none c.fallback_models;
    fallback_settings = override-none c.fallback_settings;
    aliases = override-none c.aliases;
    supports_vision = override-none c.supports_vision;
    tokenizer_name = override-none c.tokenizer_name;
  }

  Inherits-merge :
      (r c : ModelConfig J) (cs : List (ModelConfig J))
      → Inherits r cs
      → Inherits (merge r c) (c ∷ cs)
  unfolding merge
  Inherits-merge r c cs h = record {
    provider = ap (override c.provider) h.provider;
    api_base = ap (override c.api_base) h.api_base;
    api_key_env = ap (override c.api_key_env) h.api_key_env;
    extend = h.extend;
    timeout = ap (override c.timeout) h.timeout;
    extra_body = ap (override c.extra_body) h.extra_body;
    fallback_models = ap (override c.fallback_models) h.fallback_models;
    fallback_settings = ap (override c.fallback_settings) h.fallback_settings;
    aliases = ap (override c.aliases) h.aliases;
    supports_vision = ap (override c.supports_vision) h.supports_vision;
    tokenizer_name = ap (override c.tokenizer_name) h.tokenizer_name;
  }

  -- What the merge of a line of ancestors is.
  merge_chain-Ancestry :
      (m : Dict (ModelConfig J)) (k : String) (c : ModelConfig J) (cs : List (ModelConfig J))
      → Ancestry m (some k) (c ∷ cs)
      → (final : ModelConfig J) × (merge_chain (reverse (c ∷ cs)) ≡ some final)
        × Inherits final (c ∷ cs)
        × (final.model ≡ c.model)
  unfolding merge_chain merge_children merge
  merge_chain-Ancestry m k c [] line = elim (Option-cases c.extend) [
    | inl x ↦ (c, refl, Inherits-root c x, refl)
    | inr (p, x) ↦ absurd (rw x at line.1)
  ]
  merge_chain-Ancestry m k c (d ∷ ds) line = elim (Option-cases c.extend) [
    | inl x ↦ absurd (rw x at line.1)
    | inr (p, x) ↦
        let (r, made, inherits, _) = merge_chain-Ancestry m p d ds (rw x at line.1) in
        (
          merge r c,
          ap merge_chain (reverse-cons c (d ∷ ds)) ∙ merge_chain-snoc (reverse (d ∷ ds)) r c made,
          Inherits-merge r c (d ∷ ds) inherits,
          refl,
        )
  ]

  -- The resolution ends within its fuel on every map of models, cyclic ones included.
  pub resolve-ne-out_of_fuel :
      (k : String) (m : Dict (ModelConfig J)) → resolve_model_config k m ≢ out_of_fuel
  unfolding resolve_model_config
  resolve-ne-out_of_fuel k m =
      go (collect_chain (rounds m) m k (k ∷ []))
        (collect_chain-fuel (rounds m) m k (k ∷ []) (omega (arith, unvisited-le (k ∷ []) m)))
    where
      go :
          (r : Resolution (List (ModelConfig J)))
          → r ≢ out_of_fuel
          → (r >>= λ cs. ok (merge_chain (reverse cs))) ≢ out_of_fuel
      go (ok cs) h p = cc
      go (circular v) h p = cc
      go (not_found j) h p = cc
      go out_of_fuel h p = h refl

  -- A key that has a line of ancestors resolves, to its own model name, no parent, and for every
  -- other setting the value of the nearest ancestor that sets it.
  pub resolve-Inherits :
      (k : String) (m : Dict (ModelConfig J)) (c : ModelConfig J) (cs : List (ModelConfig J))
      → Ancestry m (some k) (c ∷ cs)
      → (final : ModelConfig J) × (resolve_model_config k m ≡ ok (some final))
        × Inherits final (c ∷ cs)
        × (final.model ≡ c.model)
  unfolding resolve_model_config
  resolve-Inherits k m c cs line =
      let (final, made, inherits, name) = merge_chain-Ancestry m k c cs line in
      elim (collect_chain_complete (rounds m) m k (k ∷ []) (c ∷ cs) line
        ((c ∷ cs, line, omega arith), tt)) [
          | inl e ↦ (final, rw e (ap ok made), inherits, name)
          | inr e ↦ absurd (
              collect_chain-fuel (rounds m) m k (k ∷ []) (omega (arith, unvisited-le (k ∷ []) m)) e)
        ]

  -- A resolution that succeeds comes from a line of ancestors: the key and every parent on it is the
  -- key of a model, and the last model has no parent.
  pub resolve_sound :
      (k : String) (m : Dict (ModelConfig J)) (o : Option (ModelConfig J))
      → resolve_model_config k m ≡ ok o
      → (c : ModelConfig J) × (cs : List (ModelConfig J)) × Ancestry m (some k) (c ∷ cs)
  unfolding resolve_model_config
  resolve_sound k m o h =
      go (collect_chain (rounds m) m k (k ∷ [])) h
        (λ cs e. collect_chain-Ancestry (rounds m) m k (k ∷ []) cs e)
    where
      go :
          (r : Resolution (List (ModelConfig J)))
          → (r >>= λ cs. ok (merge_chain (reverse cs))) ≡ ok o
          → ((cs : List (ModelConfig J)) → r ≡ ok cs → Ancestry m (some k) cs)
          → (c : ModelConfig J) × (cs : List (ModelConfig J)) × Ancestry m (some k) (c ∷ cs)
      go (ok []) e line = absurd (line [] refl)
      go (ok (c ∷ cs)) e line = (c, cs, line (c ∷ cs) refl)
      go (circular v) e line = absurd (cc)
      go (not_found j) e line = absurd (cc)
      go out_of_fuel e line = absurd (cc)

  -- The merge never indexes an empty chain.
  pub resolve-ne-panic :
      (k : String) (m : Dict (ModelConfig J)) → resolve_model_config k m ≢ ok none
  resolve-ne-panic k m h =
      let (c, cs, line) = resolve_sound k m none h in
      let (final, made, _, _) = resolve-Inherits k m c cs line in cc
