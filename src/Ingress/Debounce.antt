-- ===== src/Ingress/Debounce.antt =====
-- src/ingress/debounce.rs: messages of one source are held back and sent on as one.
-- An `Instant` is a number of nanoseconds; every reading of the clock and every fresh id is an
-- argument. `none` is a panic: of `Instant - Duration` below the first instant, and of
-- `combine_session` on an empty buffer.
pub mod Buffers
pub mod Flush
pub mod Combine
pub mod Limits
use zier_alpha.Prelude.Dict
use zier_alpha.Prelude.Dict.{Dict}
use zier_alpha.Prelude.{
  ℕ, ◌+◌, ◌*◌, ◌-◌, min, String, Text, List, [], ◌∷◌, ◌++◌, Option, none, some, Bool, ◌&&◌, ◌||◌,
  not, length, sum_of, map, is_empty, byte_len, join, codes, ltb, leb, if◌then◌else◌, checked_sub,
  ◌>>=◌,
}
use zier_alpha.Ingress.Types.{IngressMessage, ImageAttachment}

pub record IngressDebounceConfig : Type 0 where
  pub debounce_seconds : ℕ
  pub max_debounce_messages : ℕ
  pub max_debounce_chars : ℕ

pub record DebounceSession : Type 0 where
  pub buffer : List IngressMessage
  pub last_update : ℕ

pub record DebounceManager : Type 0 where
  pub sessions : Dict DebounceSession
  pub config : IngressDebounceConfig

abbrev pub second : ℕ
second = 1000000000

abbrev pub debounce_dur : IngressDebounceConfig → ℕ
debounce_dur c = c.debounce_seconds * second

abbrev pub new : IngressDebounceConfig → DebounceManager
new config = record { sessions = []; config = config }

unfoldable pub char_count : DebounceSession → ℕ
char_count s = sum_of (λ m. byte_len m.payload) s.buffer

-- `entry(source).or_insert_with(DebounceSession::new)`, then the push.
unfoldable pub pushed : Option DebounceSession → IngressMessage → ℕ → DebounceSession
pushed none msg now = record { buffer = msg ∷ []; last_update = now }
pushed (some s) msg now = record { buffer = s.buffer ++ msg ∷ []; last_update = now }

unfoldable pub over_limits : IngressDebounceConfig → DebounceSession → Bool
over_limits c s =
    ltb c.max_debounce_messages (length s.buffer) || ltb c.max_debounce_chars (char_count s)

-- The limit check of `ingest`: an instant far enough back makes the session ready at once.
unfoldable pub check_limits : IngressDebounceConfig → ℕ → DebounceSession → Option DebounceSession
check_limits c now s =
    if over_limits c s
    then (do
      t ← checked_sub now (debounce_dur c)
      t' ← checked_sub t second
      some (record s { last_update = t' }))
    else some s

-- `now` and `later` are the two readings of the clock whose values are kept.
unfoldable pub ingest : DebounceManager → IngressMessage → ℕ → ℕ → Option DebounceManager
ingest d msg now later = do
  s ← check_limits d.config later (pushed (Dict.get msg.source d.sessions) msg now)
  some (record d { sessions = Dict.insert msg.source s d.sessions })

unfoldable pub earliest : ℕ → List IngressMessage → ℕ
earliest t [] = t
earliest t (m ∷ ms) = earliest (min t m.timestamp) ms

unfoldable pub all_images : List IngressMessage → List ImageAttachment
all_images [] = []
all_images (m ∷ ms) = m.images ++ all_images ms

abbrev pub blank_line : Text
blank_line = 10 ∷ 10 ∷ []

-- The message that `combine_session` builds when the buffer is not empty.
unfoldable pub combine : ℕ → String → IngressMessage → List IngressMessage → IngressMessage
combine uuid source m ms = record {
  id = uuid;
  source = source;
  payload = join blank_line (map (λ (x : IngressMessage). x.payload) (m ∷ ms));
  trust = m.trust;
  timestamp = earliest m.timestamp ms;
  images = all_images (m ∷ ms);
}

unfoldable pub combine_session : ℕ → String → List IngressMessage → Option IngressMessage
combine_session uuid source [] = none
combine_session uuid source (m ∷ ms) = some (combine uuid source m ms)

-- `duration_since` is zero for a later instant.
unfoldable pub is_ready : IngressDebounceConfig → ℕ → DebounceSession → Bool
is_ready c now s = leb (debounce_dur c) (now - s.last_update) && not (is_empty s.buffer)

-- The loop of `flush_ready`: the combined messages, and the sources to remove.
unfoldable pub collect_ready :
    IngressDebounceConfig
    → ℕ
    → (String → ℕ)
    → Dict DebounceSession
    → Option (List IngressMessage × List String)
collect_ready c now uuid [] = some ([], [])
collect_ready c now uuid ((source, s) ∷ rest) =
    let others = collect_ready c now uuid rest in
    if is_ready c now s
    then (do
      combined ← combine_session (uuid source) source s.buffer
      (ready, to_remove) ← others
      some (combined ∷ ready, source ∷ to_remove))
    else others

unfoldable pub flush_ready :
    DebounceManager → ℕ → (String → ℕ) → Option (List IngressMessage × DebounceManager)
flush_ready d now uuid = do
  (ready, to_remove) ← collect_ready d.config now uuid d.sessions
  some (ready, record d { sessions = Dict.remove_all to_remove d.sessions })

unfoldable pub drain_all : (String → ℕ) → Dict DebounceSession → Option (List IngressMessage)
drain_all uuid [] = some []
drain_all uuid ((source, s) ∷ rest) =
    let others = drain_all uuid rest in
    if is_empty s.buffer then others else (do
      combined ← combine_session (uuid source) source s.buffer
      all ← others
      some (combined ∷ all))

unfoldable pub flush_all :
    DebounceManager → (String → ℕ) → Option (List IngressMessage × DebounceManager)
flush_all d uuid = do all ← drain_all uuid d.sessions; some (all, record d { sessions = [] })
