-- ===== src/Ingress/Worker/Batches.antt =====
-- src/ingress/controller.rs: what the debounce worker sends on is what it was sent.
use zier_alpha.Prelude.Dict
use zier_alpha.Prelude.Dict.{
  Dict, Distinct, Each, Fresh, test_at, get-Fresh, get-keep, keep-Distinct, Each-keep,
}
use zier_alpha.Prelude.{
  ℕ, ◌+◌, ◌≤◌, ◌≡◌, ◌⊎◌, refl, sym, ap, ◌∙◌, String, List, [], ◌∷◌, ◌++◌, map, Option, none, some,
  subst, append_assoc, append-nil, Bool, true, false, arith, if◌then◌else◌, is_empty, keep,
  Bool-cases, inl, inr, ◌==◌, eq_iff,
}
use zier_alpha.Ingress.Types.{IngressMessage}
use zier_alpha.Ingress.Debounce.{
  DebounceManager, DebounceSession, IngressDebounceConfig, debounce_dur, second, new, is_ready,
  combine, combine_session, flush_ready,
}
use zier_alpha.Ingress.Debounce.Buffers.{
  buffer_of, pending, pending-ingest, ingest_total, ingest_inv,
}
use zier_alpha.Ingress.Debounce.Flush.{
  IsValid, new-IsValid, ingest-IsValid, Holds, combined, flush_ready_lem, flush_all_lem,
}
use zier_alpha.Ingress.Worker.{Branch, received, ticked, turn, turns, worker}

-- Of the messages `out`, those of the source `k` are the messages `held`, cut into batches that are
-- not empty, each batch combined into one.
abbrev pub Batches : String → List IngressMessage → List IngressMessage → Type 0
Batches k [] held = held ≡ []
Batches k (x ∷ out) held =
    (((x.source == k) ≡ false) × Batches k out held)
    ⊎ ((uuid : ℕ) × (m : IngressMessage) × (ms : List IngressMessage) × (rest : List IngressMessage)
        × (x ≡ combine uuid k m ms)
        × (held ≡ (m ∷ ms) ++ rest)
        × Batches k out rest)

abbrev pub messages : List Branch → List IngressMessage
messages [] = []
messages (received msg now later ∷ events) = msg ∷ messages events
messages (ticked now uuid ∷ events) = messages events

-- Every check of the limits reads a clock that is past the debounce time and a second.
abbrev pub Late : IngressDebounceConfig → List Branch → Type 0
Late c [] = Unit
Late c (received msg now later ∷ events) = (debounce_dur c + second ≤ later) × Late c events
Late c (ticked now uuid ∷ events) = Late c events

Batches-append :
    (k : String) (xs ys us vs : List IngressMessage)
    → Batches k xs us
    → Batches k ys vs
    → Batches k (xs ++ ys) (us ++ vs)
Batches-append k [] ys us vs h g = rw h g
Batches-append k (x ∷ xs) ys us vs (inl (other, h)) g =
    inl (other, Batches-append k xs ys us vs h g)
Batches-append k (x ∷ xs) ys us vs (inr (uuid, m, ms, rest, made, cut, h)) g = inr (
  uuid,
  m,
  ms,
  rest ++ vs,
  made,
  ap (λ t. t ++ vs) cut ∙ append_assoc (m ∷ ms) rest vs,
  Batches-append k xs ys rest vs h g,
)

combine_session_inv :
    (uuid : ℕ) (k : String) (b : List IngressMessage) (x : IngressMessage)
    → is_empty b ≡ false
    → some x ≡ combine_session uuid k b
    → (m : IngressMessage) × (ms : List IngressMessage) × (b ≡ m ∷ ms) × (x ≡ combine uuid k m ms)
unfolding combine_session
combine_session_inv uuid k [] x full e = absurd (cc)
combine_session_inv uuid k (m ∷ ms) x full e = (m, ms, refl, cc)

-- One message for each session of a map, in its order.
combined-Batches :
    (k : String) (uuid : String → ℕ) (m : Dict DebounceSession) (out : List IngressMessage)
    → Distinct m
    → Each Holds m
    → map some out ≡ map (combined uuid) m
    → Batches k out (buffer_of (Dict.get k m))
unfolding Dict.get combine
combined-Batches k uuid [] [] d h e = refl
combined-Batches k uuid [] (x ∷ out) d h e = absurd (cc)
combined-Batches k uuid (entry ∷ m) [] d h e = absurd (cc)
combined-Batches k uuid ((j, s) ∷ m) (x ∷ out) d h e =
    let (a, b, cut, made) = combine_session_inv (uuid j) j s.buffer x h.0.0 (cc) in
    let rest = combined-Batches k uuid m out d.1 h.1 (cc) in
    elim (Bool-cases (j == k)) [
      | inl here ↦
          let same = (eq_iff j k).0 here in
          let gone : Dict.get k m ≡ none =
            subst (λ i. Dict.get i m ≡ none) same (get-Fresh j m d.0) in
          inr (
            uuid j,
            a,
            b,
            [],
            made ∙ ap (λ i. combine (uuid j) i a b) same,
            rw here (cut ∙ sym (append-nil (a ∷ b))),
            subst (λ o. Batches k out (buffer_of o)) gone rest,
          )
      | inr other ↦ inl (rw made other, rw other rest)
    ]

abbrev pub from : String → List IngressMessage → List IngressMessage
from k = keep (λ m. m.source == k)

buffer_of_split :
    (b : Bool) (o : Option DebounceSession)
    → buffer_of o ≡ buffer_of (if b then o else none) ++ buffer_of (if b then none else o)
buffer_of_split true o = sym (append-nil (buffer_of o))
buffer_of_split false o = refl

-- What a flush sends on and what stays are what was held.
pub flush_ready-Batches :
    (d : DebounceManager) (now : ℕ) (uuid : String → ℕ)
    → IsValid d
    → (out : List IngressMessage) × (e : DebounceManager) × (flush_ready d now uuid ≡ some (out, e))
      × (e.config ≡ d.config)
      × IsValid e
      × ((k : String)
          → (sent : List IngressMessage) × Batches k out sent × (pending k d ≡ sent ++ pending k e))
flush_ready-Batches d now uuid v =
    let (out, e, runs, same, at, settings, w) = flush_ready_lem d now uuid v in
    let ready = is_ready d.config now in
    (
      out,
      e,
      runs,
      settings,
      w,
      λ k.
          let kept = get-keep ready k d.sessions v.distinct in
          (
            buffer_of (Dict.get k (keep (λ s. ready s.1) d.sessions)),
            combined-Batches k uuid (keep (λ s. ready s.1) d.sessions) out
                (keep-Distinct ready d.sessions v.distinct)
                (Each-keep Holds ready d.sessions v.held) same,
            rw (at k, kept)
                (buffer_of_split (test_at ready (Dict.get k d.sessions)) (Dict.get k d.sessions)),
          ),
    )

from-received :
    (k : String) (msg : IngressMessage) (now later : ℕ) (events : List Branch)
    → from k (messages (received msg now later ∷ events))
      ≡ (if msg.source == k then msg ∷ [] else []) ++ from k (messages events)
from-received k msg now later events = ground arith

-- The worker from a manager that holds messages already.
turns-Batches :
    (uuid : String → ℕ) (d : DebounceManager) (events : List Branch)
    → IsValid d
    → Late d.config events
    → (out : List IngressMessage) × (turns uuid d events ≡ some out)
      × ((k : String) → Batches k out (pending k d ++ from k (messages events)))
unfolding turns turn
turns-Batches uuid d [] v late =
    let (out, runs, same) = flush_all_lem d uuid v in
    (
      out,
      rw runs refl,
      λ k.
          rw (append-nil (pending k d))
            (combined-Batches k uuid d.sessions out v.distinct v.held same),
    )
turns-Batches uuid d (received msg now later ∷ events) v late =
    let (e, runs) = ingest_total d msg now later late.0 in
    let (s, _, made) = ingest_inv d e msg now later runs in
    let (out, others, all) =
      turns-Batches uuid e events (ingest-IsValid d e msg now later v runs)
        (subst (λ m. Late (DebounceManager.config m) events) (sym made) late.1) in
    (
      out,
      rw (runs, others),
      λ k.
          let more = if msg.source == k then msg ∷ [] else [] in
          let held = pending-ingest d e msg now later k runs in
          rw
            (
              from-received k msg now later events,
              ← append_assoc (pending k d) more (from k (messages events)),
              ← held,
            )
            (all k),
    )
turns-Batches uuid d (ticked now fresh ∷ events) v late =
    let (ready, e, runs, settings, w, split) = flush_ready-Batches d now fresh v in
    let (out, others, all) =
      turns-Batches uuid e events w (subst (λ c. Late c events) (sym settings) late) in
    (
      ready ++ out,
      rw (runs, others),
      λ k.
          let (sent, batches, held) = split k in
          rw (held, append_assoc sent (pending k e) (from k (messages events)))
            (Batches-append k ready out sent (pending k e ++ from k (messages events)) batches
              (all k)),
    )

-- Where every check of the limits reads a clock past the debounce time and a second, the worker does
-- not panic, whatever messages and ticks come in whatever order. For each source, the messages it
-- starts tasks for are then exactly the messages received from the source, all of them, once each
-- and in their order, cut into batches that are not empty, each combined into one message.
pub worker-Batches :
    (c : IngressDebounceConfig) (uuid : String → ℕ) (events : List Branch)
    → Late c events
    → (out : List IngressMessage) × (worker c uuid events ≡ some out)
      × ((k : String) → Batches k out (from k (messages events)))
unfolding worker Dict.get
worker-Batches c uuid events late = turns-Batches uuid (new c) events (new-IsValid c) late
