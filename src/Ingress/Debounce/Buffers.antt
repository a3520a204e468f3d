-- ===== src/Ingress/Debounce/Buffers.antt =====
-- src/ingress/debounce.rs, `ingest`: what is held for each source, and the limits.
use zier_alpha.Prelude.Dict
use zier_alpha.Prelude.Dict.{Dict, Distinct, get-insert, insert-Distinct}
use zier_alpha.Prelude.{
  ℕ, ◌+◌, ◌≤◌, ◌≡◌, refl, String, List, [], ◌∷◌, ◌++◌, Option, none, some, arith, ◌-◌, Bool-cases,
  ◌∙◌, sym, append-nil, ◌==◌, eq_iff, if◌then◌else◌, Option-cases, inl, inr,
}
use zier_alpha.Ingress.Types.{IngressMessage}
use zier_alpha.Ingress.Debounce.{
  DebounceManager, DebounceSession, IngressDebounceConfig, debounce_dur, second, ingest, pushed,
  check_limits, over_limits,
}

abbrev pub buffer_of : Option DebounceSession → List IngressMessage
buffer_of none = []
buffer_of (some s) = s.buffer

-- The messages held for a source, oldest first.
abbrev pub pending : String → DebounceManager → List IngressMessage
pending k d = buffer_of (Dict.get k d.sessions)

pub pushed-buffer :
    (o : Option DebounceSession) (msg : IngressMessage) (now : ℕ)
    → (pushed o msg now).buffer ≡ buffer_of o ++ msg ∷ []
unfolding pushed
pushed-buffer none msg now = refl
pushed-buffer (some s) msg now = refl

pub check_limits-buffer :
    (c : IngressDebounceConfig) (now : ℕ) (s t : DebounceSession)
    → check_limits c now s ≡ some t
    → t.buffer ≡ s.buffer
unfolding check_limits
check_limits-buffer c now s t h = ground arith

check_limits-some :
    (c : IngressDebounceConfig) (now : ℕ) (s : DebounceSession)
    → debounce_dur c + second ≤ now
    → (t : DebounceSession) × (check_limits c now s ≡ some t)
unfolding check_limits
check_limits-some c now s h = elim (Bool-cases (over_limits c s)) [
  | inl p ↦ (record s { last_update = now - debounce_dur c - second }, ground arith)
  | inr p ↦ (s, ground arith)
]

-- What a successful `ingest` did: the session of the source, and nothing else, changed.
pub ingest_inv :
    (d e : DebounceManager) (msg : IngressMessage) (now later : ℕ)
    → ingest d msg now later ≡ some e
    → (s : DebounceSession) × (check_limits d.config later
          (pushed (Dict.get msg.source d.sessions) msg now)
        ≡ some s)
      × (e ≡ record d { sessions = Dict.insert msg.source s d.sessions })
unfolding ingest
ingest_inv d e msg now later h =
    elim (Option-cases
      (check_limits d.config later (pushed (Dict.get msg.source d.sessions) msg now))) [
        | inl p ↦ absurd (ground arith)
        | inr (s, p) ↦ (s, p, ground arith)
      ]

-- `ingest` never panics once the clock is past the debounce time and a second.
pub ingest_total :
    (d : DebounceManager) (msg : IngressMessage) (now later : ℕ)
    → debounce_dur d.config + second ≤ later
    → (e : DebounceManager) × (ingest d msg now later ≡ some e)
unfolding ingest
ingest_total d msg now later h =
    let (s, p) =
      check_limits-some d.config later (pushed (Dict.get msg.source d.sessions) msg now) h in
    (record d { sessions = Dict.insert msg.source s d.sessions }, rw p)

-- An `ingest` that returns appends the message to what its source holds and leaves the other sources alone.
pub pending-ingest :
    (d e : DebounceManager) (msg : IngressMessage) (now later : ℕ) (k : String)
    → ingest d msg now later ≡ some e
    → pending k e ≡ pending k d ++ (if msg.source == k then msg ∷ [] else [])
pending-ingest d e msg now later k h =
    let (s, p, q) = ingest_inv d e msg now later h in
    let old = Dict.get msg.source d.sessions in
    let same : s.buffer ≡ buffer_of old ++ msg ∷ [] =
      check_limits-buffer d.config later (pushed old msg now) s p ∙ pushed-buffer old msg now in
    let there = get-insert msg.source k s d.sessions in
    rw q (elim (Bool-cases (msg.source == k)) [
      | inl here ↦ rw (there, here) (rw (← ((eq_iff msg.source k).0 here)) same)
      | inr other ↦ rw (there, other) (sym (append-nil (pending k d)))
    ])
