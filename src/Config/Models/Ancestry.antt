-- ===== src/Config/Models/Ancestry.antt =====
-- src/config/models.rs: the chain that the loop collects is the key's line of ancestors.
use zier_alpha.Prelude.Dict
use zier_alpha.Prelude.Dict.{Dict, has}
use zier_alpha.Prelude.{
  ℕ, zero, suc, ◌≤◌, ◌≡◌, refl, sym, ap, ◌∙◌, ◌⊎◌, String, List, [], ◌∷◌, ◌++◌, Option, none, some,
  false, arith, ◌==◌, eq_iff, length, All, All-append, Bool-cases, Option-cases, inl, inr,
}
use zier_alpha.Config.Models.{
  ModelConfig, Resolution, ok, circular, not_found, out_of_fuel, ◌>>=◌, collect_chain,
}
use zier_alpha.Config.Models.Chain.{round_missing, round_root, round_cycle, round_parent}

module _ {J : Type 0} where
  -- The list is what the key names, then what that extends, and so on to a model without a parent.
  abbrev pub Ancestry : Dict (ModelConfig J) → Option String → List (ModelConfig J) → Type 0
  Ancestry m none [] = Unit
  Ancestry m none (c ∷ cs) = ⊥
  Ancestry m (some k) [] = ⊥
  Ancestry m (some k) (c ∷ cs) = (Dict.get k m ≡ some c) × Ancestry m c.extend cs

  pub Ancestry-unique :
      (m : Dict (ModelConfig J)) (o : Option String) (cs ds : List (ModelConfig J))
      → Ancestry m o cs
      → Ancestry m o ds
      → cs ≡ ds
  Ancestry-unique m none [] [] h g = refl
  Ancestry-unique m none [] (d ∷ ds) h g = absurd g
  Ancestry-unique m none (c ∷ cs) ds h g = absurd h
  Ancestry-unique m (some k) [] ds h g = absurd h
  Ancestry-unique m (some k) (c ∷ cs) [] h g = absurd g
  Ancestry-unique m (some k) (c ∷ cs) (d ∷ ds) h g =
      let same : c ≡ d = cc in let above = Ancestry-unique m c.extend cs ds h.1 (rw same g.1) in cc

  ok-bind :
      (r : Resolution (List (ModelConfig J))) (c : ModelConfig J) (cs : List (ModelConfig J))
      → (r >>= λ ds. ok (c ∷ ds)) ≡ ok cs
      → (ds : List (ModelConfig J)) × (r ≡ ok ds) × (cs ≡ c ∷ ds)
  ok-bind (ok ds) c cs h = (ds, refl, ground arith)
  ok-bind (circular v) c cs h = absurd (cc)
  ok-bind (not_found k) c cs h = absurd (cc)
  ok-bind out_of_fuel c cs h = absurd (cc)

  -- What the loop collects is the line of ancestors.
  pub collect_chain-Ancestry :
      (fuel : ℕ) (m : Dict (ModelConfig J)) (k : String) (vs : List String)
      (cs : List (ModelConfig J))
      → collect_chain fuel m k vs ≡ ok cs
      → Ancestry m (some k) cs
  unfolding collect_chain
  collect_chain-Ancestry zero m k vs cs h = absurd (cc)
  collect_chain-Ancestry (suc fuel) m k vs cs h = elim (Option-cases (Dict.get k m)) [
    | inl e ↦ absurd (cc (h, round_missing m k vs fuel e))
    | inr (c, e) ↦ elim (Option-cases c.extend) [
      | inl x ↦ let alone : cs ≡ c ∷ [] = cc (round_root m k vs fuel c e x) in rw alone (e, rw x tt)
      | inr (p, x) ↦ elim (Bool-cases (has p vs)) [
        | inl seen ↦ absurd (cc (h, round_cycle m k vs fuel c p e x seen))
        | inr new ↦
            let (ds, above, same) =
              ok-bind (collect_chain fuel m p (vs ++ p ∷ [])) c cs
                (sym (round_parent m k vs fuel c p e x new) ∙ h) in
            rw same (e, rw x (collect_chain-Ancestry fuel m p (vs ++ p ∷ []) ds above))
      ]
    ]
  ]

  -- A visited key whose line of ancestors is no shorter.
  abbrev Longer : Dict (ModelConfig J) → List (ModelConfig J) → String → Type 0
  Longer m cs v = (ds : List (ModelConfig J)) × Ancestry m (some v) ds × (length cs ≤ length ds)

  Longer-tail :
      (m : Dict (ModelConfig J)) (c : ModelConfig J) (cs : List (ModelConfig J)) (vs : List String)
      → All (Longer m (c ∷ cs)) vs
      → All (Longer m cs) vs
  Longer-tail m c cs [] h = tt
  Longer-tail m c cs (v ∷ vs) h =
      let (ds, line, le) = h.0 in ((ds, line, omega arith), Longer-tail m c cs vs h.1)

  not-has :
      (m : Dict (ModelConfig J)) (c : ModelConfig J) (cs : List (ModelConfig J)) (p : String)
      (vs : List String)
      → Ancestry m (some p) cs
      → All (Longer m (c ∷ cs)) vs
      → has p vs ≡ false
  not-has m c cs p [] line h = refl
  not-has m c cs p (v ∷ vs) line h = elim (Bool-cases (v == p)) [
    | inl same ↦
        let (ds, other, le) = h.0 in
        let e = Ancestry-unique m (some p) cs ds line (rw ((eq_iff v p).0 same) at other) in
        absurd (omega (arith, ap length e))
    | inr differ ↦ rw (differ, not-has m c cs p vs line h.1)
  ]

  Ancestry-none :
      (m : Dict (ModelConfig J)) (cs : List (ModelConfig J)) → Ancestry m none cs → cs ≡ []
  Ancestry-none m [] h = refl
  Ancestry-none m (c ∷ cs) h = absurd h

  bind-cases :
      (r : Resolution (List (ModelConfig J))) (c : ModelConfig J) (cs : List (ModelConfig J))
      → (r ≡ ok cs) ⊎ (r ≡ out_of_fuel)
      → ((r >>= λ ds. ok (c ∷ ds)) ≡ ok (c ∷ cs)) ⊎ ((r >>= λ ds. ok (c ∷ ds)) ≡ out_of_fuel)
  bind-cases r c cs (inl e) = inl (rw e)
  bind-cases r c cs (inr e) = inr (rw e)

  -- Where the key has a line of ancestors, the loop meets no cycle and misses no model.
  pub collect_chain_complete :
      (fuel : ℕ) (m : Dict (ModelConfig J)) (k : String) (vs : List String)
      (cs : List (ModelConfig J))
      → Ancestry m (some k) cs
      → All (Longer m cs) vs
      → (collect_chain fuel m k vs ≡ ok cs) ⊎ (collect_chain fuel m k vs ≡ out_of_fuel)
  unfolding collect_chain
  collect_chain_complete zero m k vs cs line h = inr refl
  collect_chain_complete (suc fuel) m k vs [] line h = absurd line
  collect_chain_complete (suc fuel) m k vs (c ∷ cs) line h = elim (Option-cases c.extend) [
    | inl x ↦
        let alone = Ancestry-none m cs (rw x at line.1) in
        inl (round_root m k vs fuel c line.0 x ∙ rw alone)
    | inr (p, x) ↦
        let above : Ancestry m (some p) cs = rw x at line.1 in
        let new = not-has m c cs p vs above h in
        let older =
          All-append (Longer m cs) vs (p ∷ []) (Longer-tail m c cs vs h)
            ((cs, above, omega arith), tt) in
        rw (round_parent m k vs fuel c p line.0 x new) (
          bind-cases (collect_chain fuel m p (vs ++ p ∷ [])) c cs
            (collect_chain_complete fuel m p (vs ++ p ∷ []) cs above older))
  ]
