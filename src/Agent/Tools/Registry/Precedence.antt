-- ===== src/Agent/Tools/Registry/Precedence.antt =====
-- src/agent/tools/registry.rs: which tool a name stands for.
use zier_alpha.Prelude.Dict
use zier_alpha.Prelude.Dict.{Dict, has}
use zier_alpha.Prelude.{
  ◌≡◌, refl, ◌∙◌, String, List, [], ◌∷◌, Option, none, some, Bool, true, false, ◌==◌, ◌||◌, ◌&&◌,
  Bool-cases, inl, inr, if◌then◌else◌,
}
use zier_alpha.Agent.Tools.Registry.{insert_allowed, insert_external, insert_scripts, build}

-- The value of the last entry with the name, or else what there is.
abbrev last_of {ℓ} :
    {T : Type ℓ} → String → (T → String) → (T → Bool) → List T → Option T → Option T
last_of k name may [] old = old
last_of k name may (t ∷ ts) old =
    last_of k name may ts (if may t && name t == k then some t else old)

abbrev last_entry {ℓ} : {T : Type ℓ} → String → Dict T → Option T → Option T
last_entry k [] old = old
last_entry k ((j, t) ∷ ts) old = last_entry k ts (if j == k then some t else old)

-- The first of two values that is there.
abbrev pub or_old {ℓ} : {T : Type ℓ} → Option T → Option T → Option T
or_old none old = old
or_old (some t) old = some t

-- The last tool of a name among those that may be used, and the last entry of a name.
abbrev pub find_last {ℓ} : {T : Type ℓ} → String → (T → String) → (T → Bool) → List T → Option T
find_last k name may [] = none
find_last k name may (t ∷ ts) =
    or_old (find_last k name may ts) (if may t && name t == k then some t else none)

abbrev pub find_last_entry {ℓ} : {T : Type ℓ} → String → Dict T → Option T
find_last_entry k [] = none
find_last_entry k ((j, t) ∷ ts) = or_old (find_last_entry k ts) (if j == k then some t else none)

or_old-none {ℓ} : {T : Type ℓ} (o : Option T) → or_old o none ≡ o
or_old-none none = refl
or_old-none (some t) = refl

or_old-test {ℓ} :
    {T : Type ℓ} (later : Option T) (b : Bool) (t : T) (old : Option T)
    → or_old later (if b then some t else old)
      ≡ or_old (or_old later (if b then some t else none)) old
or_old-test none true t old = refl
or_old-test none false t old = refl
or_old-test (some u) b t old = refl

module _ {ℓ} {T : Type ℓ} where
  get-insert_allowed :
      (k : String) (allowed : List String) (name : T → String) (builtins : List T) (tools : Dict T)
      → Dict.get k (insert_allowed allowed name builtins tools)
        ≡ last_of k name (λ t. has "*" allowed || has (name t) allowed) builtins (Dict.get k tools)
  unfolding insert_allowed
  get-insert_allowed k allowed name [] tools = refl
  get-insert_allowed k allowed name (t ∷ builtins) tools =
      elim (Bool-cases (has "*" allowed || has (name t) allowed)) [
        | inl allowed_one ↦ rw (
          allowed_one,
          get-insert_allowed k allowed name builtins (Dict.insert (name t) t tools),
          Dict.get-insert,
        )
        | inr kept_out ↦ rw (kept_out, get-insert_allowed k allowed name builtins tools)
      ]

  get-insert_external :
      (k : String) (external tools : Dict T)
      → Dict.get k (insert_external external tools) ≡ last_entry k external (Dict.get k tools)
  unfolding insert_external
  get-insert_external k [] tools = refl
  get-insert_external k ((j, t) ∷ external) tools =
      rw (get-insert_external k external (Dict.insert j t tools), Dict.get-insert)

  get-insert_scripts :
      (k : String) (name : T → String) (scripts : List T) (tools : Dict T)
      → Dict.get k (insert_scripts name scripts tools)
        ≡ last_of k name (λ t. true) scripts (Dict.get k tools)
  unfolding insert_scripts
  get-insert_scripts k name [] tools = refl
  get-insert_scripts k name (t ∷ scripts) tools =
      rw (get-insert_scripts k name scripts (Dict.insert (name t) t tools), Dict.get-insert)

  last_of-find_last :
      (k : String) (name : T → String) (may : T → Bool) (ts : List T) (old : Option T)
      → last_of k name may ts old ≡ or_old (find_last k name may ts) old
  last_of-find_last k name may [] old = refl
  last_of-find_last k name may (t ∷ ts) old =
      last_of-find_last k name may ts (if may t && name t == k then some t else old)
      ∙ or_old-test (find_last k name may ts) (may t && name t == k) t old

  last_entry-find_last :
      (k : String) (ts : Dict T) (old : Option T)
      → last_entry k ts old ≡ or_old (find_last_entry k ts) old
  last_entry-find_last k [] old = refl
  last_entry-find_last k ((j, t) ∷ ts) old =
      last_entry-find_last k ts (if j == k then some t else old)
      ∙ or_old-test (find_last_entry k ts) (j == k) t old

  -- A name stands for the last script tool of that name; without one, for the external tool; without
  -- either, for the last built-in tool of that name, if the settings allow all or that name.
  pub get-build :
      (k : String) (allowed : List String) (name : T → String) (builtins scripts : List T)
      (external : Dict T)
      → Dict.get k (build allowed name builtins external scripts)
        ≡ or_old (find_last k name (λ t. true) scripts) (
            or_old
              (find_last_entry k external)
              (find_last k name (λ t. has "*" allowed || has (name t) allowed) builtins))
  unfolding build Dict.get
  get-build k allowed name builtins scripts external =
      let may : T → Bool = λ t. has "*" allowed || has (name t) allowed in
      rw (
        get-insert_scripts k name scripts,
        get-insert_external k external,
        get-insert_allowed k allowed name builtins [],
        last_of-find_last k name (λ t. true) scripts,
        last_entry-find_last k external,
        last_of-find_last k name may builtins none,
        or_old-none (find_last k name may builtins),
      )
