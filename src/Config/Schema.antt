-- ===== src/Config/Schema.antt =====
-- src/config/schema.rs: durations and times of day as the settings write them.
-- `str::parse` of the standard library reads a decimal number below a bound. `overflow` is a `u64`
-- that is too large, a panic where overflow is checked. The messages of the errors carry the text
-- that was given; the constructors leave that out.
pub mod Durations
pub mod Times
use zier_alpha.Prelude.PathText.{split_on}
use zier_alpha.Prelude.{
  ℕ, ◌+◌, ◌*◌, ◌-◌, Text, List, [], ◌∷◌, ◌++◌, Option, none, some, Bool, true, false, ◌&&◌, leb,
  ltb, nat_eq, if◌then◌else◌,
}

pub data Parsed {ℓ} (A : Type ℓ) : Type ℓ where
  parsed : A → Parsed A
  invalid_number : Parsed A
  unknown_unit : ℕ → Parsed A
  invalid_duration : Parsed A
  invalid_format : Parsed A
  invalid_hour : Parsed A
  invalid_minute : Parsed A
  overflow : Parsed A

abbrev pub u64_end : ℕ
u64_end = 18446744073709551616

-- `char::is_ascii_digit`.
unfoldable pub is_ascii_digit : ℕ → Bool
is_ascii_digit c = leb 48 c && leb c 57

unfoldable pub value_after : ℕ → Text → ℕ
value_after n [] = n
value_after n (c ∷ cs) = value_after (n * 10 + (c - 48)) cs

abbrev pub value : Text → ℕ
value = value_after 0

unfoldable pub all_digits : Text → Bool
all_digits [] = true
all_digits (c ∷ cs) = let rest = all_digits cs in is_ascii_digit c && rest

-- `str::parse` of an unsigned number below `bound`, without its sign.
unfoldable pub parse_digits : ℕ → Text → Option ℕ
parse_digits bound [] = none
parse_digits bound (c ∷ cs) =
    if all_digits (c ∷ cs) && ltb (value (c ∷ cs)) bound then some (value (c ∷ cs)) else none

-- The sign is allowed.
unfoldable pub parse_unsigned : ℕ → Text → Option ℕ
parse_unsigned bound [] = none
parse_unsigned bound (c ∷ cs) =
    if nat_eq c 43 then parse_digits bound cs else parse_digits bound (c ∷ cs)

-- The seconds of a unit: `s`, `m`, `h` and `d`.
unfoldable pub unit_seconds : ℕ → Option ℕ
unit_seconds c =
    if nat_eq c 115
    then some 1
    else if nat_eq c 109
    then some 60
    else if nat_eq c 104
    then some 3600
    else if nat_eq c 100
    then some 86400
    else none

unfoldable pub total_of : ℕ → Parsed ℕ
total_of total_seconds = if nat_eq total_seconds 0 then invalid_duration else parsed total_seconds

-- The loop of `parse_duration` over the characters, and the check after it.
unfoldable pub duration_loop : ℕ → Text → Text → Parsed ℕ
duration_loop total_seconds current_num [] = total_of total_seconds
duration_loop total_seconds current_num (c ∷ cs) = elim (is_ascii_digit c) [
  | true ↦ duration_loop total_seconds (current_num ++ c ∷ []) cs
  | false ↦ elim (parse_unsigned u64_end current_num) [
    | none ↦ invalid_number
    | some num ↦ elim (unit_seconds c) [
      | none ↦ unknown_unit c
      | some seconds ↦ elim (ltb (total_seconds + num * seconds) u64_end) [
        | true ↦ duration_loop (total_seconds + num * seconds) [] cs
        | false ↦ overflow
      ]
    ]
  ]
]

unfoldable pub parse_duration : Text → Parsed ℕ
parse_duration s = duration_loop 0 [] s

unfoldable pub in_range : ℕ → ℕ → Parsed (ℕ × ℕ)
in_range hour minute =
    if ltb 23 hour
    then invalid_hour
    else if ltb 59 minute
    then invalid_minute
    else parsed (hour, minute)

-- The numbers are read as `u8`.
unfoldable pub hour_minute : List Text → Parsed (ℕ × ℕ)
hour_minute (h ∷ m ∷ []) = elim (parse_unsigned 256 h) [
  | none ↦ invalid_hour
  | some hour ↦ elim (parse_unsigned 256 m) [
    | none ↦ invalid_minute
    | some minute ↦ in_range hour minute
  ]
]
hour_minute _ = invalid_format

-- `HH:MM`.
unfoldable pub parse_time : Text → Parsed (ℕ × ℕ)
parse_time s = hour_minute (split_on 58 s)
