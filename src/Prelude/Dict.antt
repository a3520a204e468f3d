-- ===== src/Prelude/Dict.antt =====
-- `HashMap<String, V>` as an association list; the order of the list is the order of iteration.
use Prim.Native.String.{String}
use mathlib.Core.Path.{◌≡◌, refl}
use mathlib.Core.Bool.{Bool, false}
use mathlib.Core.List.{List, [], ◌∷◌, map}
use mathlib.Core.Option.{Option, none, some}
use native.Mathlib.Omega.{arith}
use text.Mathlib.Text.{◌==◌}
use text.Mathlib.TextEquality.{eq_iff}
use zier_alpha.Prelude.Tests.{if◌then◌else◌, Bool-cases}
use mathlib.Core.Logic.{inl, inr}
use zier_alpha.Prelude.Lists.{any, keep}

abbrev pub Dict {ℓ} : Type ℓ → Type ℓ
Dict V = List (String × V)

module _ {ℓ} {V : Type ℓ} where
  unfoldable pub get : String → Dict V → Option V
  get k [] = none
  get k ((j, v) ∷ m) = if j == k then some v else get k m

  unfoldable pub insert : String → V → Dict V → Dict V
  insert key value [] = (key, value) ∷ []
  insert key value ((i, old) ∷ rest) =
      if i == key then (key, value) ∷ rest else (i, old) ∷ insert key value rest

  unfoldable pub remove : String → Dict V → Dict V
  remove k [] = []
  remove k ((j, v) ∷ m) = let rest = remove k m in if j == k then rest else (j, v) ∷ rest

  -- `get_mut`, and a change of what it finds.
  unfoldable pub update : String → (V → V) → Dict V → Dict V
  update k f [] = []
  update k f ((j, v) ∷ m) = if j == k then (j, f v) ∷ m else (j, v) ∷ update k f m

  pub get-insert :
      (k j : String) (v : V) (m : Dict V)
      → get j (insert k v m) ≡ (if k == j then some v else get j m)
  unfolding get insert
  get-insert k j v [] = refl
  get-insert k j v ((i, w) ∷ m) =
      ground (arith, eq_iff k j, eq_iff i k, eq_iff i j, get-insert k j v m)

  pub get-remove :
      (k j : String) (m : Dict V) → get j (remove k m) ≡ (if k == j then none else get j m)
  unfolding get remove
  get-remove k j [] = ground arith
  get-remove k j ((i, v) ∷ m) = ground (arith, get-remove k j m, eq_iff i k, eq_iff i j, eq_iff k j)

-- Every key stands once.
abbrev pub Fresh {ℓ} : {V : Type ℓ} → String → Dict V → Type 0
Fresh k [] = Unit
Fresh k ((j, v) ∷ m) = ((j == k) ≡ false) × Fresh k m

abbrev pub Distinct {ℓ} : {V : Type ℓ} → Dict V → Type 0
Distinct [] = Unit
Distinct ((k, v) ∷ m) = Fresh k m × Distinct m

abbrev pub keys {ℓ} : {V : Type ℓ} → Dict V → List String
keys = map (λ e. e.0)

-- The test that a list of keys has one.
abbrev pub has : String → List String → Bool
has k = any (λ j. j == k)

module _ {ℓ} {V : Type ℓ} where
  unfoldable pub remove_all : List String → Dict V → Dict V
  remove_all [] m = m
  remove_all (k ∷ ks) m = remove_all ks (remove k m)

  pub get-remove_all :
      (ks : List String) (j : String) (m : Dict V)
      → get j (remove_all ks m) ≡ (if has j ks then none else get j m)
  unfolding remove_all
  get-remove_all [] j m = refl
  get-remove_all (k ∷ ks) j m = ground (arith, get-remove_all ks j (remove k m), get-remove k j m)

  pub get-Fresh : (k : String) (m : Dict V) → Fresh k m → get k m ≡ none
  unfolding get
  get-Fresh k [] h = refl
  get-Fresh k ((j, v) ∷ m) h = ground (arith, get-Fresh k m h.1)

  pub Fresh-insert :
      (k j : String) (v : V) (m : Dict V) → (j == k) ≡ false → Fresh k m → Fresh k (insert j v m)
  unfolding insert
  Fresh-insert k j v [] ne h = (ne, tt)
  Fresh-insert k j v ((i, w) ∷ m) ne h = ground (arith, Fresh-insert k j v m ne h.1)

  pub insert-Distinct : (k : String) (v : V) (m : Dict V) → Distinct m → Distinct (insert k v m)
  unfolding insert
  insert-Distinct k v [] h = (tt, tt)
  insert-Distinct k v ((j, w) ∷ m) h =
      ground (arith, eq_iff j k, eq_iff k j, insert-Distinct k v m h.1, Fresh-insert j k v m)

  pub remove-Fresh : (k j : String) (m : Dict V) → Fresh k m → Fresh k (remove j m)
  unfolding remove
  remove-Fresh k j [] h = tt
  remove-Fresh k j ((i, w) ∷ m) h = ground (arith, remove-Fresh k j m h.1)

  pub remove-Distinct : (k : String) (m : Dict V) → Distinct m → Distinct (remove k m)
  unfolding remove
  remove-Distinct k [] h = tt
  remove-Distinct k ((j, w) ∷ m) h = ground (arith, remove-Distinct k m h.1, remove-Fresh j k m h.0)

  pub remove_all-Distinct :
      (ks : List String) (m : Dict V) → Distinct m → Distinct (remove_all ks m)
  unfolding remove_all
  remove_all-Distinct [] m h = h
  remove_all-Distinct (k ∷ ks) m h = remove_all-Distinct ks (remove k m) (remove-Distinct k m h)

  Fresh-keep :
      (p : V → Bool) (k : String) (m : Dict V)
      → Fresh k m
      → has k (keys (keep (λ e. p e.1) m)) ≡ false
  Fresh-keep p k [] h = refl
  Fresh-keep p k ((j, v) ∷ m) h = ground (arith, Fresh-keep p k m h.1)

  abbrev pub test_at : (V → Bool) → Option V → Bool
  test_at p none = false
  test_at p (some v) = p v

  -- With distinct keys, a key is among those kept exactly when its value passes.
  pub has-keys-keep :
      (p : V → Bool) (k : String) (m : Dict V)
      → Distinct m
      → has k (keys (keep (λ e. p e.1) m)) ≡ test_at p (get k m)
  unfolding get
  has-keys-keep p k [] h = refl
  has-keys-keep p k ((j, v) ∷ m) h =
      ground (arith, eq_iff j k, has-keys-keep p k m h.1, Fresh-keep p j m h.0)

module _ {ℓ} {V : Type ℓ} (p : V → Bool) where
  Fresh-kept : (k : String) (m : Dict V) → Fresh k m → Fresh k (keep (λ e. p e.1) m)
  Fresh-kept k [] h = tt
  Fresh-kept k ((j, v) ∷ m) h = ground (arith, Fresh-kept k m h.1)

  pub keep-Distinct : (m : Dict V) → Distinct m → Distinct (keep (λ e. p e.1) m)
  keep-Distinct [] h = tt
  keep-Distinct ((j, v) ∷ m) h = ground (arith, keep-Distinct m h.1, Fresh-kept j m h.0)

  pub get-keep :
      (k : String) (m : Dict V)
      → Distinct m
      → get k (keep (λ e. p e.1) m) ≡ (if test_at p (get k m) then get k m else none)
  unfolding get
  get-keep k [] h = refl
  get-keep k ((j, v) ∷ m) h = ground (arith, eq_iff j k, get-keep k m h.1, get-Fresh j m h.0)

-- A predicate of every entry.
abbrev pub Each {ℓ κ} : {V : Type ℓ} → (String → V → Type κ) → Dict V → Type κ
Each P [] = Unit
Each P ((k, v) ∷ m) = P k v × Each P m

module _ {ℓ κ} {V : Type ℓ} (P : String → V → Type κ) where
  pub Each-insert : (k : String) (v : V) (m : Dict V) → P k v → Each P m → Each P (insert k v m)
  unfolding insert
  Each-insert k v [] p h = (p, tt)
  Each-insert k v ((j, w) ∷ m) p h = elim (Bool-cases (j == k)) [
    | inl e ↦ rw e (p, h.1)
    | inr e ↦ rw e (h.0, Each-insert k v m p h.1)
  ]

  pub Each-remove : (k : String) (m : Dict V) → Each P m → Each P (remove k m)
  unfolding remove
  Each-remove k [] h = tt
  Each-remove k ((j, w) ∷ m) h = elim (Bool-cases (j == k)) [
    | inl e ↦ rw e (Each-remove k m h.1)
    | inr e ↦ rw e (h.0, Each-remove k m h.1)
  ]

  pub Each-update :
      (k : String) (f : V → V) (m : Dict V)
      → ((j : String) (v : V) → P j v → P j (f v))
      → Each P m
      → Each P (update k f m)
  unfolding update
  Each-update k f [] keeps h = tt
  Each-update k f ((j, w) ∷ m) keeps h = elim (Bool-cases (j == k)) [
    | inl e ↦ rw e (keeps j w h.0, h.1)
    | inr e ↦ rw e (h.0, Each-update k f m keeps h.1)
  ]

  pub Each-remove_all : (ks : List String) (m : Dict V) → Each P m → Each P (remove_all ks m)
  unfolding remove_all
  Each-remove_all [] m h = h
  Each-remove_all (k ∷ ks) m h = Each-remove_all ks (remove k m) (Each-remove k m h)

  pub Each-keep : (p : V → Bool) (m : Dict V) → Each P m → Each P (keep (λ e. p e.1) m)
  Each-keep p [] h = tt
  Each-keep p ((j, w) ∷ m) h = elim (Bool-cases (p w)) [
    | inl e ↦ rw e (h.0, Each-keep p m h.1)
    | inr e ↦ rw e (Each-keep p m h.1)
  ]

  pub Each-get : (k : String) (m : Dict V) (v : V) → Each P m → get k m ≡ some v → P k v
  unfolding get
  Each-get k [] v h e = absurd (cc)
  Each-get k ((j, w) ∷ m) v h e = elim (Bool-cases (j == k)) [
    | inl same ↦ let here : w ≡ v = ground arith in rw (← here) (rw (← ((eq_iff j k).0 same)) h.0)
    | inr other ↦ Each-get k m v h.1 (ground arith)
  ]

pub ruleset dict_laws = (get-insert, get-remove, get-remove_all)
