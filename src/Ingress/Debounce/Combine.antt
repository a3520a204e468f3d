-- ===== src/Ingress/Debounce/Combine.antt =====
-- src/ingress/debounce.rs, `combine_session`: the message that stands for a whole buffer.
use zier_alpha.Prelude.{
  ℕ, ◌+◌, ◌*◌, ◌≤◌, ◌≡◌, ◌⊎◌, inl, refl, suc, ap, String, Text, List, [], ◌∷◌, ◌++◌, map, arith,
  All, any, nat_eq, true, sum_of, sum_of-append, length, byte_len, join, len_utf8, min,
}
use zier_alpha.Ingress.Types.{IngressMessage}
use zier_alpha.Ingress.Debounce.{combine, earliest, blank_line}

-- Each text joined with a separator before it, but for the first.
byte_len-join :
    (sep : Text) (t : Text) (ts : List Text)
    → byte_len (join sep (t ∷ ts)) ≡ sum_of byte_len (t ∷ ts) + length ts * byte_len sep
unfolding join
byte_len-join sep t [] = omega arith
byte_len-join sep t (u ∷ ts) = omega (
  arith,
  byte_len-join sep u ts,
  sum_of-append len_utf8 t (sep ++ join sep (u ∷ ts)),
  sum_of-append len_utf8 sep (join sep (u ∷ ts)),
)

sum_of-payloads :
    (ms : List IngressMessage)
    → sum_of byte_len (map (λ (x : IngressMessage). x.payload) ms)
      ≡ sum_of (λ m. byte_len m.payload) ms
sum_of-payloads [] = refl
sum_of-payloads (m ∷ ms) = omega (arith, sum_of-payloads ms)

length-map :
    (ms : List IngressMessage) → length (map (λ (x : IngressMessage). x.payload) ms) ≡ length ms
length-map [] = refl
length-map (m ∷ ms) = ap suc (length-map ms)

-- A combined payload holds every byte of the buffered payloads, and two more for each message
-- after the first.
pub byte_len-combine :
    (uuid : ℕ) (source : String) (m : IngressMessage) (ms : List IngressMessage)
    → byte_len (combine uuid source m ms).payload
      ≡ sum_of (λ x. byte_len x.payload) (m ∷ ms) + 2 * length ms
unfolding combine len_utf8
byte_len-combine uuid source m ms = omega (
  arith,
  byte_len-join blank_line m.payload (map (λ (x : IngressMessage). x.payload) ms),
  sum_of-payloads ms,
  length-map ms,
)

earliest-le :
    (t : ℕ) (ms : List IngressMessage)
    → (earliest t ms ≤ t) × All (λ m. earliest t ms ≤ m.timestamp) ms
unfolding earliest
earliest-le t [] = (omega arith, tt)
earliest-le t (m ∷ ms) =
    let (a, b) = earliest-le (min t m.timestamp) ms in (omega arith, (omega arith, b))

-- The time is one of the times.
abbrev pub Among : ℕ → List IngressMessage → Type 0
Among t ms = any (λ m. nat_eq m.timestamp t) ms ≡ true

earliest-Among : (t : ℕ) (ms : List IngressMessage) → (earliest t ms ≡ t) ⊎ Among (earliest t ms) ms
unfolding earliest
earliest-Among t [] = inl refl
earliest-Among t (m ∷ ms) = ground (arith, earliest-Among (min t m.timestamp) ms)

-- The combined time is the earliest: at most every buffered time, and one of them.
pub timestamp-combine :
    (uuid : ℕ) (source : String) (m : IngressMessage) (ms : List IngressMessage)
    → All (λ x. (combine uuid source m ms).timestamp ≤ x.timestamp) (m ∷ ms)
      × Among (combine uuid source m ms).timestamp (m ∷ ms)
unfolding combine
timestamp-combine uuid source m ms =
    (earliest-le m.timestamp ms, ground (arith, earliest-Among m.timestamp ms))
