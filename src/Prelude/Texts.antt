-- ===== src/Prelude/Texts.antt =====
-- Text that the program measures or walks: its Unicode scalar values. `String` serves for the
-- identifiers that the program only compares.
use Prim.Native.Nat.{ℕ, zero, suc, ◌+◌, ◌/◌, ◌%◌, ◌≤◌}
use Prim.Native.Char.{code}
use Prim.Native.String.{String}
use mathlib.Core.List.{List, [], ◌∷◌, ◌++◌, map}
use mathlib.Core.Path.{◌≡◌, refl}
use mathlib.Core.Bool.{Bool, true, false, ◌&&◌, ◌||◌}
use mathlib.Core.Option.{Option, none, some}
use mathlib.Core.Logic.{inl, inr}
use native.Mathlib.Omega.{arith}
use zier_alpha.Prelude.Tests.{ltb, leb, nat_eq, Bool-cases, Option-cases, if◌then◌else◌}
use zier_alpha.Prelude.Lists.{length, sum_of, is_empty}

abbrev pub Text : Type 0
Text = List ℕ

abbrev pub codes : String → Text
codes String.[] = []
codes (String.◌∷◌ c s) = code c ∷ codes s

-- The bytes that UTF-8 takes for a scalar value (`char::len_utf8`).
unfoldable pub len_utf8 : ℕ → ℕ
len_utf8 c = if ltb c 0x80 then 1 else if ltb c 0x800 then 2 else if ltb c 0x10000 then 3 else 4

-- `str::len`, which counts bytes.
abbrev pub byte_len : Text → ℕ
byte_len = sum_of len_utf8

pub len_utf8-pos : (c : ℕ) → 1 ≤ len_utf8 c
unfolding len_utf8
len_utf8-pos c = ground arith

pub length-le-byte_len : (t : Text) → length t ≤ byte_len t
length-le-byte_len [] = omega arith
length-le-byte_len (c ∷ t) = omega (arith, length-le-byte_len t, len_utf8-pos c)

-- `slice::join`.
unfoldable pub join : Text → List Text → Text
join sep [] = []
join sep (t ∷ []) = t
join sep (t ∷ u ∷ ts) = t ++ (sep ++ join sep (u ∷ ts))

-- A number in decimal, as `to_string` prints it. One digit for each round, so `n + 1` are enough.
unfoldable pub digits : ℕ → ℕ → Text
digits zero n = []
digits (suc fuel) n =
    let high = digits fuel (n / 10) in
    if ltb n 10 then (48 + n) ∷ [] else high ++ (48 + n % 10) ∷ []

unfoldable pub decimal : ℕ → Text
unfolding digits
decimal n = digits (suc n) n

-- `char::is_whitespace`: the Unicode property White_Space.
unfoldable pub is_whitespace : ℕ → Bool
is_whitespace c =
    (leb 9 c && leb c 13)
    || nat_eq c 0x20
    || nat_eq c 0x85
    || nat_eq c 0xa0
    || nat_eq c 0x1680
    || (leb 0x2000 c && leb c 0x200a)
    || nat_eq c 0x2028
    || nat_eq c 0x2029
    || nat_eq c 0x202f
    || nat_eq c 0x205f
    || nat_eq c 0x3000

-- `str::split_whitespace`; the first argument is the word so far.
unfoldable pub split_words : Text → Text → List Text
split_words word [] = if is_empty word then [] else word ∷ []
split_words word (c ∷ t) =
    let next = split_words [] t in
    let longer = split_words (word ++ c ∷ []) t in
    if is_whitespace c then (if is_empty word then next else word ∷ next) else longer

unfoldable pub split_whitespace : Text → List Text
unfolding split_words is_whitespace
split_whitespace = split_words []

decimal_429 : decimal 429 ≡ codes "429"
unfolding decimal
decimal_429 = refl

split_whitespace_status :
    split_whitespace (codes " HTTP 503  x") ≡ map codes ("HTTP" ∷ "503" ∷ "x" ∷ [])
unfolding split_whitespace
split_whitespace_status = refl

unfoldable pub text_eq : Text → Text → Bool
text_eq [] [] = true
text_eq [] (c ∷ t) = false
text_eq (c ∷ s) [] = false
text_eq (c ∷ s) (d ∷ t) = nat_eq c d && text_eq s t

pub text_eq-eq : (s t : Text) → text_eq s t ≡ true → s ≡ t
unfolding text_eq
text_eq-eq [] [] h = refl
text_eq-eq [] (c ∷ t) h = absurd (cc)
text_eq-eq (c ∷ s) [] h = absurd (cc)
text_eq-eq (c ∷ s) (d ∷ t) h = ground (arith, text_eq-eq s t)

pub text_eq_self : (s : Text) → text_eq s s ≡ true
unfolding text_eq
text_eq_self [] = refl
text_eq_self (c ∷ s) = ground (arith, text_eq_self s)

-- `str::starts_with` and `str::contains`, the prefix or the part first.
unfoldable pub starts_with : Text → Text → Bool
starts_with [] t = true
starts_with (c ∷ p) [] = false
starts_with (c ∷ p) (d ∷ t) = nat_eq c d && starts_with p t

unfoldable pub contains : Text → Text → Bool
unfolding starts_with
contains p [] = is_empty p
contains p (c ∷ t) = starts_with p (c ∷ t) || contains p t

-- `str::split_once` at a character.
unfoldable pub split_once : ℕ → Text → Option (Text × Text)
split_once sep [] = none
split_once sep (c ∷ t) = elim (nat_eq c sep) [
  | true ↦ some ([], t)
  | false ↦ elim (split_once sep t) [ none ↦ none | some (p, rest) ↦ some (c ∷ p, rest) ]
]

pub split_once-append :
    (sep : ℕ) (t p rest : Text) → split_once sep t ≡ some (p, rest) → t ≡ p ++ sep ∷ rest
unfolding split_once
split_once-append sep [] p rest h = absurd (cc)
split_once-append sep (c ∷ t) p rest h = elim (Bool-cases (nat_eq c sep)) [
  | inl e ↦ ground arith
  | inr e ↦ elim (Option-cases (split_once sep t)) [
    | inl f ↦ absurd (ground arith)
    | inr ((q, r), f) ↦ ground (arith, split_once-append sep t q r f)
  ]
]

-- `to_ascii_lowercase` of a character, and the comparison that it gives.
unfoldable pub ascii_lower : ℕ → ℕ
ascii_lower c = if leb 65 c && leb c 90 then c + 32 else c

unfoldable pub eq_ignore_ascii_case : Text → Text → Bool
unfolding text_eq ascii_lower
eq_ignore_ascii_case s t = text_eq (map ascii_lower s) (map ascii_lower t)
