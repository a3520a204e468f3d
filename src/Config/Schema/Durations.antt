-- ===== src/Config/Schema/Durations.antt =====
-- src/config/schema.rs, `parse_duration`: the durations it reads.
use zier_alpha.Prelude.{
  ℕ, ◌+◌, ◌*◌, ◌<◌, ◌≡◌, refl, Text, List, [], ◌∷◌, ◌++◌, Option, none, some, true, false, All,
  append_assoc, append-nil, sym, ap, ◌∙◌, arith, is_empty, lt→ltb,
}
use zier_alpha.Config.Schema.{
  parsed, u64_end, is_ascii_digit, value, all_digits, parse_digits, parse_unsigned, unit_seconds,
  total_of, duration_loop, parse_duration,
}

-- A number as it is written, and a unit.
pub record Part : Type 0 where
  pub digits : Text
  pub unit : ℕ

abbrev pub or_zero : Option ℕ → ℕ
or_zero none = 0
or_zero (some n) = n

-- A number that a `u64` holds, and one of the four units.
pub record IsPart (p : Part) : Type 0 where
  pub full : is_empty p.digits ≡ false
  pub digits : all_digits p.digits ≡ true
  pub small : value p.digits < u64_end
  pub known : unit_seconds p.unit ≡ some (or_zero (unit_seconds p.unit))

abbrev pub written : List Part → Text
written [] = []
written (p ∷ ps) = p.digits ++ p.unit ∷ written ps

abbrev pub seconds : List Part → ℕ
seconds [] = 0
seconds (p ∷ ps) = value p.digits * or_zero (unit_seconds p.unit) + seconds ps

all_digits-cons :
    (c : ℕ) (cs : Text)
    → all_digits (c ∷ cs) ≡ true
    → (is_ascii_digit c ≡ true) × (all_digits cs ≡ true)
unfolding all_digits
all_digits-cons c cs h = ground arith

is_ascii_digit-unit : (c k : ℕ) → unit_seconds c ≡ some k → is_ascii_digit c ≡ false
unfolding unit_seconds is_ascii_digit
is_ascii_digit-unit c k h = ground arith

parse_unsigned-digits :
    (bound : ℕ) (ds : Text)
    → is_empty ds ≡ false
    → all_digits ds ≡ true
    → value ds < bound
    → parse_unsigned bound ds ≡ some (value ds)
unfolding parse_unsigned parse_digits is_ascii_digit
parse_unsigned-digits bound [] full h small = absurd (cc)
parse_unsigned-digits bound (c ∷ cs) full h small = ground (arith, all_digits-cons c cs h)

duration_loop-digit :
    (total c : ℕ) (num cs : Text)
    → is_ascii_digit c ≡ true
    → duration_loop total num (c ∷ cs) ≡ duration_loop total (num ++ c ∷ []) cs
unfolding duration_loop
duration_loop-digit total c num cs h = rw (duration_loop, h) refl

duration_loop-unit :
    (total n k c : ℕ) (num cs : Text)
    → parse_unsigned u64_end num ≡ some n
    → unit_seconds c ≡ some k
    → total + n * k < u64_end
    → duration_loop total num (c ∷ cs) ≡ duration_loop (total + n * k) [] cs
unfolding duration_loop
duration_loop-unit total n k c num cs read known fits =
    rw
      (
        duration_loop,
        is_ascii_digit-unit c k known,
        read,
        known,
        lt→ltb (total + n * k) u64_end fits,
      )
      refl

duration_loop-digits :
    (total : ℕ) (num ds rest : Text)
    → all_digits ds ≡ true
    → duration_loop total num (ds ++ rest) ≡ duration_loop total (num ++ ds) rest
unfolding duration_loop all_digits
duration_loop-digits total num [] rest h =
    ap (λ n. duration_loop total n rest) (sym (append-nil num))
duration_loop-digits total num (c ∷ ds) rest h =
    let (first, others) = all_digits-cons c ds h in
    duration_loop-digit total c num (ds ++ rest) first
    ∙ duration_loop-digits total (num ++ c ∷ []) ds rest others
    ∙ ap (λ n. duration_loop total n rest) (append_assoc num (c ∷ []) ds)

duration_loop-part :
    (total : ℕ) (p : Part) (rest : Text)
    → IsPart p
    → total + value p.digits * or_zero (unit_seconds p.unit) < u64_end
    → duration_loop total [] (p.digits ++ p.unit ∷ rest)
      ≡ duration_loop (total + value p.digits * or_zero (unit_seconds p.unit)) [] rest
unfolding duration_loop
duration_loop-part total p rest v fits =
    duration_loop-digits total [] p.digits (p.unit ∷ rest) v.digits
    ∙ duration_loop-unit total (value p.digits) (or_zero (unit_seconds p.unit)) p.unit p.digits rest
        (parse_unsigned-digits u64_end p.digits v.full v.digits v.small) v.known fits

duration_loop-written :
    (total : ℕ) (ps : List Part) (tail : Text)
    → All IsPart ps
    → all_digits tail ≡ true
    → total + seconds ps < u64_end
    → duration_loop total [] (written ps ++ tail) ≡ total_of (total + seconds ps)
unfolding duration_loop
duration_loop-written total [] tail h digits fits =
    ap (duration_loop total []) (sym (append-nil tail))
    ∙ duration_loop-digits total [] tail [] digits
    ∙ ap total_of (omega arith)
duration_loop-written total (p ∷ ps) tail (v, h) digits fits =
    let more = value p.digits * or_zero (unit_seconds p.unit) in
    ap (λ t. duration_loop total [] t) (append_assoc p.digits (p.unit ∷ written ps) tail)
    ∙ duration_loop-part total p (written ps ++ tail) v (omega arith)
    ∙ duration_loop-written (total + more) ps tail h digits (omega arith)
    ∙ ap total_of (omega arith)

-- A text of numbers with units, `d`, `h`, `m` or `s`, in any order, whose sum is positive and below
-- 2 ^ 64 is read as that sum, also where more digits follow the last unit: those change nothing.
pub parse_duration-written :
    (ps : List Part) (tail : Text)
    → All IsPart ps
    → all_digits tail ≡ true
    → 0 < seconds ps
    → seconds ps < u64_end
    → parse_duration (written ps ++ tail) ≡ parsed (seconds ps)
unfolding parse_duration total_of
parse_duration-written ps tail h digits pos fits =
    duration_loop-written 0 ps tail h digits (omega arith) ∙ ground arith
