-- ===== src/Config/Schema/Times.antt =====
-- src/config/schema.rs, `parse_time`: its results are times of day.
use zier_alpha.Prelude.{ℕ, ◌≤◌, ◌≡◌, Text, List, [], ◌∷◌, arith, Option-cases}
use zier_alpha.Prelude.PathText.{split_on}
use zier_alpha.Config.Schema.{parsed, in_range, hour_minute, parse_time, parse_unsigned}

hour_minute-range :
    (parts : List Text) (hour minute : ℕ)
    → hour_minute parts ≡ parsed (hour, minute)
    → (hour ≤ 23) × (minute ≤ 59)
unfolding hour_minute in_range
hour_minute-range [] hour minute e = absurd (cc)
hour_minute-range (h ∷ []) hour minute e = absurd (cc)
hour_minute-range (h ∷ m ∷ []) hour minute e =
    ground (arith, Option-cases (parse_unsigned 256 h), Option-cases (parse_unsigned 256 m))
hour_minute-range (h ∷ m ∷ x ∷ xs) hour minute e = absurd (cc)

-- Every time that parses is one that `from_hms_opt` takes, so that its `unwrap` never panics.
parse_time-range :
    (s : Text) (hour minute : ℕ)
    → parse_time s ≡ parsed (hour, minute)
    → (hour ≤ 23) × (minute ≤ 59)
unfolding parse_time
parse_time-range s hour minute e = hour_minute-range (split_on 58 s) hour minute e
