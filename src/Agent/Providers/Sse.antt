-- ===== src/Agent/Providers/Sse.antt =====
-- src/agent/providers.rs: the loop over the bytes of a stream of server-sent events, which both of the
-- streaming providers have. What a data line does is a parameter.
pub mod Framing
use zier_alpha.Memory.Chunks.{lines}
use zier_alpha.Agent.Session.Format.{strip_prefix}
use zier_alpha.Prelude.{
  ℕ, zero, suc, Text, List, [], ◌∷◌, ◌++◌, Option, none, some, Bool, true, false, length, drop,
  codes, starts_with, if◌then◌else◌,
}
use zier_alpha.Agent.Client.{Outcome, done, failed, other}
use zier_alpha.Agent.Providers.{StreamChunk}

-- An item of `bytes_stream`.
pub data NetChunk : Type 0 where
  bytes : List ℕ → NetChunk
  net_error : Text → NetChunk

abbrev pub blank_line : Text
blank_line = 10 ∷ 10 ∷ []

-- `buffer.find("\n\n")`: what is before the first blank line, and what is after it.
unfoldable pub split_event : Text → Option (Text × Text)
split_event [] = none
split_event (c ∷ t) =
    let rest = split_event t in
    if starts_with blank_line (c ∷ t)
    then some ([], drop 1 t)
    else elim rest [ none ↦ none | some (e, r) ↦ some (c ∷ e, r) ]

-- The inner loop: the complete events of the buffer, and what is left in it.
unfoldable pub take_events : ℕ → Text → List Text × Text
take_events zero buffer = ([], buffer)
take_events (suc fuel) buffer = elim (split_event buffer) [
  | none ↦ ([], buffer)
  | some (event, rest) ↦ let (events, left) = take_events fuel rest in (event ∷ events, left)
]

-- Every event takes at least two characters from the buffer.
unfoldable pub drain_buffer : Text → List Text × Text
unfolding take_events
drain_buffer buffer = take_events (length buffer) buffer

module _ {S : Type 0} (on_data : Text → S → List (Outcome StreamChunk) × S) where
  unfoldable pub read_sse_line : Text → S → List (Outcome StreamChunk) × S
  read_sse_line line s = elim (strip_prefix (codes "data: ") line) [
    | none ↦ ([], s)
    | some payload ↦ on_data payload s
  ]

  unfoldable pub read_sse_lines : List Text → S → List (Outcome StreamChunk) × S
  unfolding read_sse_line
  read_sse_lines [] s = ([], s)
  read_sse_lines (line ∷ rest) s =
      let (now, s') = read_sse_line line s in
      let (later, s'') = read_sse_lines rest s' in (now ++ later, s'')

  unfoldable pub read_events : List Text → S → List (Outcome StreamChunk) × S
  unfolding read_sse_lines
  read_events [] s = ([], s)
  read_events (event ∷ rest) s =
      let (now, s') = read_sse_lines (lines event) s in
      let (later, s'') = read_events rest s' in (now ++ later, s'')

  -- The outer loop; `decode` is `String::from_utf8_lossy`.
  unfoldable pub read_chunks :
      (List ℕ → Text) → List NetChunk → Text → S → List (Outcome StreamChunk)
  unfolding read_events drain_buffer
  read_chunks decode [] buffer s = []
  read_chunks decode (net_error e ∷ chunks) buffer s =
      failed (other (codes "Stream error: " ++ e)) ∷ []
  read_chunks decode (bytes b ∷ chunks) buffer s =
      let (events, left) = drain_buffer (buffer ++ decode b) in
      let (now, s') = read_events events s in now ++ read_chunks decode chunks left s'
