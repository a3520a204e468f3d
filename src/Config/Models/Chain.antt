-- ===== src/Config/Models/Chain.antt =====
-- src/config/models.rs: the loop over the parents ends, and finds the chain of ancestors if there
-- is one.
use zier_alpha.Prelude.Dict
use zier_alpha.Prelude.Dict.{Dict, has, get-insert}
use zier_alpha.Prelude.{
  ℕ, zero, suc, ◌+◌, ◌≤◌, ◌<◌, ◌≡◌, ◌≢◌, refl, String, List, [], ◌∷◌, ◌++◌, none, some, true, false,
  not, ◌||◌, arith, ◌==◌, eq_iff, length, keep, Bool-cases, Option-cases, inl, inr,
}
use zier_alpha.Config.Models.{
  ModelConfig, Resolution, ok, circular, not_found, out_of_fuel, ◌>>=◌, collect_chain,
}

has-snoc : (k p : String) (vs : List String) → has k (vs ++ p ∷ []) ≡ (has k vs || (p == k))
has-snoc k p [] = ground arith
has-snoc k p (v ∷ vs) = ground (arith, has-snoc k p vs)

module _ {J : Type 0} where
  -- The models whose key has not been visited.
  abbrev pub unvisited : List String → Dict (ModelConfig J) → ℕ
  unvisited vs m = length (keep (λ e. not (has e.0 vs)) m)

  unvisited-snoc :
      (p : String) (vs : List String) (m : Dict (ModelConfig J))
      → unvisited (vs ++ p ∷ []) m ≤ unvisited vs m
  unvisited-snoc p vs [] = omega arith
  unvisited-snoc p vs ((k, c) ∷ m) = ground (arith, unvisited-snoc p vs m, has-snoc k p vs)

  unvisited_falls :
      (p : String) (vs : List String) (m : Dict (ModelConfig J)) (c : ModelConfig J)
      → Dict.get p m ≡ some c
      → has p vs ≡ false
      → unvisited (vs ++ p ∷ []) m < unvisited vs m
  unfolding Dict.get
  unvisited_falls p vs [] c h new = absurd (cc)
  unvisited_falls p vs ((k, d) ∷ m) c h new = ground (
    arith,
    unvisited-snoc p vs m,
    unvisited_falls p vs m c,
    has-snoc k p vs,
    eq_iff k p,
    eq_iff p k,
  )

  pub unvisited-le : (vs : List String) (m : Dict (ModelConfig J)) → unvisited vs m ≤ length m
  unvisited-le vs [] = omega arith
  unvisited-le vs (e ∷ m) = ground (arith, unvisited-le vs m)

  -- The four ways through one round of the loop.
  module _ (m : Dict (ModelConfig J)) (k : String) (vs : List String) (fuel : ℕ) where
    pub round_missing : Dict.get k m ≡ none → collect_chain (suc fuel) m k vs ≡ not_found k
    unfolding collect_chain
    round_missing e = rw (e, collect_chain)

    pub round_root :
        (c : ModelConfig J)
        → Dict.get k m ≡ some c
        → c.extend ≡ none
        → collect_chain (suc fuel) m k vs ≡ ok (c ∷ [])
    unfolding collect_chain
    round_root c e x = ground arith

    pub round_cycle :
        (c : ModelConfig J) (p : String)
        → Dict.get k m ≡ some c
        → c.extend ≡ some p
        → has p vs ≡ true
        → collect_chain (suc fuel) m k vs ≡ circular vs
    unfolding collect_chain
    round_cycle c p e x seen = ground arith

    pub round_parent :
        (c : ModelConfig J) (p : String)
        → Dict.get k m ≡ some c
        → c.extend ≡ some p
        → has p vs ≡ false
        → collect_chain (suc fuel) m k vs
          ≡ (collect_chain fuel m p (vs ++ p ∷ []) >>= λ cs. ok (c ∷ cs))
    unfolding collect_chain
    round_parent c p e x new = ground arith

  bind-out_of_fuel :
      (r : Resolution (List (ModelConfig J))) (c : ModelConfig J)
      → r ≢ out_of_fuel
      → (r >>= λ cs. ok (c ∷ cs)) ≢ out_of_fuel
  bind-out_of_fuel (ok cs) c h p = cc
  bind-out_of_fuel (circular vs) c h p = cc
  bind-out_of_fuel (not_found k) c h p = cc
  bind-out_of_fuel out_of_fuel c h p = h refl

  pub collect_chain-fuel :
      (fuel : ℕ) (m : Dict (ModelConfig J)) (k : String) (vs : List String)
      → unvisited vs m + 2 ≤ fuel
      → collect_chain fuel m k vs ≢ out_of_fuel
  collect_chain-fuel zero m k vs h = absurd (omega arith)
  collect_chain-fuel (suc zero) m k vs h = absurd (omega arith)
  collect_chain-fuel (suc (suc fuel)) m k vs h = elim (Option-cases (Dict.get k m)) [
    | inl e ↦ rw (round_missing m k vs (suc fuel) e) (λ p. cc)
    | inr (c, e) ↦ elim (Option-cases c.extend) [
      | inl x ↦ rw (round_root m k vs (suc fuel) c e x) (λ p. cc)
      | inr (p, x) ↦ elim (Bool-cases (has p vs)) [
        | inl seen ↦ rw (round_cycle m k vs (suc fuel) c p e x seen) (λ q. cc)
        | inr new ↦ rw (round_parent m k vs (suc fuel) c p e x new) (
            bind-out_of_fuel _ c (elim (Option-cases (Dict.get p m)) [
              | inl gone ↦ rw (round_missing m p (vs ++ p ∷ []) fuel gone) (λ q. cc)
              | inr (d, there) ↦
                  collect_chain-fuel (suc fuel) m p (vs ++ p ∷ [])
                    (omega (arith, unvisited_falls p vs m d there new))
            ]))
      ]
    ]
  ]
