-- ===== src/Prelude/Strings.antt =====
-- The `String` of a list of scalar values, the inverse of `codes`.
use Prim.Native.Nat.{ℕ, Ordering, compare}
use Prim.Native.Char.{Char, char, IsScalar, IsLt, nul}
use Prim.Native.String.{String}
use mathlib.Core.Path.{◌≡◌, refl}
use mathlib.Core.Option.{Option, none, some}
use mathlib.Core.List.{[], ◌∷◌}
use zier_alpha.Prelude.Texts.{Text, codes}

abbrev Both : Ordering → Ordering → Type 0
Both Ordering.lt o = IsLt o
Both Ordering.eq _ = ⊥
Both Ordering.gt _ = ⊥

-- `IsScalar` of the three comparisons that it makes.
abbrev Scalar : Ordering → Ordering → Ordering → Type 0
Scalar Ordering.lt _ _ = Unit
Scalar Ordering.eq o p = Both o p
Scalar Ordering.gt o p = Both o p

both_lt : (o p : Ordering) → Option (Both o p)
both_lt Ordering.lt Ordering.lt = some tt
both_lt _ _ = none

scalar : (o p q : Ordering) → Option (Scalar o p q)
unfolding both_lt
scalar Ordering.lt p q = some tt
scalar Ordering.eq p q = both_lt p q
scalar Ordering.gt p q = both_lt p q

both_lt-some : (o p : Ordering) (h : Both o p) → both_lt o p ≡ some h
unfolding both_lt
both_lt-some Ordering.lt Ordering.lt h = refl
both_lt-some Ordering.lt Ordering.eq h = absurd h
both_lt-some Ordering.lt Ordering.gt h = absurd h
both_lt-some Ordering.eq q h = absurd h
both_lt-some Ordering.gt q h = absurd h

scalar-some : (o p q : Ordering) (h : Scalar o p q) → scalar o p q ≡ some h
unfolding scalar
scalar-some Ordering.lt p q h = refl
scalar-some Ordering.eq p q h = both_lt-some p q h
scalar-some Ordering.gt p q h = both_lt-some p q h

-- A number that is not a scalar value stands for the character 0.
unfoldable pub to_char : ℕ → Char
unfolding scalar
to_char n = elim (scalar (compare n 55296) (compare 57343 n) (compare n 1114112)) [
  | some p ↦ char n p
  | none ↦ nul
]

unfoldable pub from_codes : Text → String
unfolding to_char
from_codes [] = String.[]
from_codes (c ∷ t) = String.◌∷◌ (to_char c) (from_codes t)

to_char-code : (n : ℕ) (p : IsScalar n) → to_char n ≡ char n p
unfolding to_char
to_char-code n p =
    rw (to_char, scalar-some (compare n 55296) (compare 57343 n) (compare n 1114112) p)

pub from_codes-codes : (s : String) → from_codes (codes s) ≡ s
unfolding from_codes
from_codes-codes String.[] = refl
from_codes-codes (String.◌∷◌ (char n p) s) = rw (to_char-code n p, from_codes-codes s)
