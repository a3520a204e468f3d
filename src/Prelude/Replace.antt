-- ===== src/Prelude/Replace.antt =====
-- `str::matches`, `str::replace` and `str::replacen(_, _, 1)` on texts, and what they promise: the
-- occurrences are found from the left and do not overlap.
use Prim.Native.Nat.{ℕ, zero, suc, ◌-◌, ◌≤◌}
use mathlib.Core.List.{[], ◌∷◌, ◌++◌, append-nil}
use mathlib.Core.Path.{◌≡◌, refl, ap, sym}
use mathlib.Core.Logic.{◌≢◌, inl, inr}
use mathlib.Core.Bool.{true, false}
use native.Mathlib.Omega.{arith}
use zier_alpha.Prelude.Tests.{Bool-cases, if◌then◌else◌}
use zier_alpha.Prelude.Lists.{length, drop, length-drop}
use zier_alpha.Prelude.Texts.{Text, starts_with, contains}

-- The scan for a pattern that is not empty: the number is what is left of an occurrence.
unfoldable pub replace_from : Text → Text → ℕ → Text → Text
replace_from old new k [] = []
replace_from old new (suc k) (c ∷ t) = replace_from old new k t
replace_from old new zero (c ∷ t) = elim (starts_with old (c ∷ t)) [
  | true ↦ new ++ replace_from old new (length old - 1) t
  | false ↦ c ∷ replace_from old new zero t
]

unfoldable pub count_from : Text → ℕ → Text → ℕ
count_from old k [] = 0
count_from old (suc k) (c ∷ t) = count_from old k t
count_from old zero (c ∷ t) = elim (starts_with old (c ∷ t)) [
  | true ↦ suc (count_from old (length old - 1) t)
  | false ↦ count_from old zero t
]

-- The empty pattern is found before each character and at the end.
unfoldable pub interleave : Text → Text → Text
interleave new [] = new
interleave new (c ∷ t) = new ++ c ∷ interleave new t

unfoldable pub replace : Text → Text → Text → Text
unfolding replace_from interleave
replace [] new t = interleave new t
replace (c ∷ old) new t = replace_from (c ∷ old) new 0 t

unfoldable pub matches : Text → Text → ℕ
unfolding count_from
matches [] t = suc (length t)
matches (c ∷ old) t = count_from (c ∷ old) 0 t

-- `replacen` with the count one.
unfoldable pub replace_first : Text → Text → Text → Text
unfolding starts_with
replace_first old new [] = if starts_with old [] then new else []
replace_first old new (c ∷ t) = elim (starts_with old (c ∷ t)) [
  | true ↦ new ++ drop (length old) (c ∷ t)
  | false ↦ c ∷ replace_first old new t
]

-- No occurrence begins inside the first text when the second follows it.
abbrev pub Unmatched : Text → Text → Text → Type 0
Unmatched old [] rest = Unit
Unmatched old (c ∷ p) rest = (starts_with old (c ∷ (p ++ rest)) ≡ false) × Unmatched old p rest

-- The second text is the first with that many occurrences replaced, and no other is left.
pub data Replaced (old new : Text) : ℕ → Text → Text → Type 0 where
  none_left : (t : Text) → Unmatched old t [] → Replaced old new zero t t
  one_more :
      {n : ℕ} (p t u : Text)
      → Unmatched old p (old ++ t)
      → Replaced old new n t u
      → Replaced old new (suc n) (p ++ (old ++ t)) (p ++ (new ++ u))

pub starts_with-append : (p t : Text) → starts_with p t ≡ true → t ≡ p ++ drop (length p) t
unfolding starts_with
starts_with-append [] t h = refl
starts_with-append (c ∷ p) [] h = absurd (cc)
starts_with-append (c ∷ p) (d ∷ t) h = ground (arith, starts_with-append p t)

-- The first occurrence, and no other, is replaced.
pub replace_first_lem :
    (old new t : Text)
    → contains old t ≡ true
    → (p s : Text) × Unmatched old p (old ++ s)
      × (t ≡ p ++ (old ++ s))
      × (replace_first old new t ≡ p ++ (new ++ s))
unfolding replace_first contains starts_with
replace_first_lem [] new [] h = ([], [], tt, refl, sym (append-nil new))
replace_first_lem (d ∷ old) new [] h = absurd (cc)
replace_first_lem old new (c ∷ t) h = elim (Bool-cases (starts_with old (c ∷ t))) [
  | inl here ↦ (
    [],
    drop (length old) (c ∷ t),
    tt,
    starts_with-append old (c ∷ t) here,
    rw (replace_first, here),
  )
  | inr later ↦
      let (p, s, quiet, whole, done) = replace_first_lem old new t (ground arith) in
      (
        c ∷ p,
        s,
        (rw (← whole) later, quiet),
        ap (◌∷◌ c) whole,
        rw (replace_first, later) (ap (◌∷◌ c) done),
      )
]

module _ (new : Text) where
  replace_from-skip :
      (old s t : Text) → replace_from old new (length s) (s ++ t) ≡ replace_from old new 0 t
  unfolding replace_from
  replace_from-skip old [] t = refl
  replace_from-skip old (c ∷ s) t = replace_from-skip old s t

count_from-skip : (old s t : Text) → count_from old (length s) (s ++ t) ≡ count_from old 0 t
unfolding count_from
count_from-skip old [] t = refl
count_from-skip old (c ∷ s) t = count_from-skip old s t

-- A character at which no occurrence begins stays.
Replaced-cons :
    (old new : Text) (c : ℕ) {n : ℕ} {t u : Text}
    → starts_with old (c ∷ t) ≡ false
    → Replaced old new n t u
    → Replaced old new n (c ∷ t) (c ∷ u)
Replaced-cons old new c h (none_left t quiet) = none_left (c ∷ t) (rw (append-nil t) h, quiet)
Replaced-cons old new c h (one_more p t u quiet more) = one_more (c ∷ p) t u (h, quiet) more

module _ (d : ℕ) (old new : Text) where
  -- An occurrence at the head.
  Replaced-at :
      (r : Text)
      → Replaced (d ∷ old) new (count_from (d ∷ old) 0 r) r (replace_from (d ∷ old) new 0 r)
      → Replaced
          (d ∷ old)
          new
          (suc (count_from (d ∷ old) (length old) (old ++ r)))
          (d ∷ (old ++ r))
          (new ++ replace_from (d ∷ old) new (length old) (old ++ r))
  Replaced-at r ih =
      rw (count_from-skip (d ∷ old) old r, replace_from-skip new (d ∷ old) old r)
        (one_more [] r _ tt ih)

  Replaced-here :
      (c : ℕ) (t : Text)
      → ((r : Text)
          → length r ≤ length t
          → Replaced (d ∷ old) new (count_from (d ∷ old) 0 r) r (replace_from (d ∷ old) new 0 r))
      → starts_with (d ∷ old) (c ∷ t) ≡ true
      → Replaced
          (d ∷ old)
          new
          (suc (count_from (d ∷ old) (length old) t))
          (c ∷ t)
          (new ++ replace_from (d ∷ old) new (length old) t)
  Replaced-here c t ih h =
      let r = drop (length old) t in
      let whole = starts_with-append (d ∷ old) (c ∷ t) h in
      let first : c ≡ d = cc whole in
      let rest : t ≡ old ++ r = cc whole in
      let short : length r ≤ length t = omega (arith, length-drop (length old) t) in
      rw (first, rest) (Replaced-at r (ih r short))

Replaced-from :
    (d : ℕ) (old new : Text) (n : ℕ) (t : Text)
    → length t ≤ n
    → Replaced (d ∷ old) new (count_from (d ∷ old) 0 t) t (replace_from (d ∷ old) new 0 t)
unfolding replace_from count_from
Replaced-from d old new n [] h = none_left [] tt
Replaced-from d old new zero (c ∷ t) h = absurd (omega arith)
Replaced-from d old new (suc n) (c ∷ t) h = elim (Bool-cases (starts_with (d ∷ old) (c ∷ t))) [
  | inl here ↦
      let all : suc (length old) - 1 ≡ length old = omega arith in
      rw (here, replace_from, count_from, all)
        (Replaced-here d old new c t (λ r short. Replaced-from d old new n r (omega arith)) here)
  | inr quiet ↦
      rw (quiet, replace_from, count_from)
        (Replaced-cons (d ∷ old) new c quiet (Replaced-from d old new n t (omega arith)))
]

-- All occurrences, as many as are counted, are replaced.
pub Replaced-replace :
    (old new t : Text) → old ≢ [] → Replaced old new (matches old t) t (replace old new t)
unfolding replace matches
Replaced-replace [] new t h = absurd (h refl)
Replaced-replace (d ∷ old) new t h = Replaced-from d old new (length t) t (omega arith)
