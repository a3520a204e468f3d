-- ===== src/Ingress/Debounce/Flush.antt =====
-- src/ingress/debounce.rs, `flush_ready` and `flush_all`: what goes out and what stays.
use zier_alpha.Prelude.Dict
use zier_alpha.Prelude.Dict.{
  Dict, Distinct, Each, keys, test_at, get-insert, insert-Distinct, has-keys-keep, get-remove_all,
  remove_all-Distinct, Each-insert, Each-get, Each-remove_all,
}
use zier_alpha.Prelude.{
  ℕ, ◌≡◌, refl, ap, ◌∙◌, String, List, [], ◌∷◌, ◌++◌, map, Option, none, some, true, false, arith,
  if◌then◌else◌, All, All-append, is_empty, keep, Bool-cases, inl, inr,
}
use zier_alpha.Ingress.Types.{IngressMessage}
use zier_alpha.Ingress.Debounce.{
  DebounceManager, DebounceSession, IngressDebounceConfig, new, ingest, pushed, is_ready, combine,
  combine_session, collect_ready, flush_ready, drain_all, flush_all,
}
use zier_alpha.Ingress.Debounce.Buffers.{buffer_of, ingest_inv, check_limits-buffer, pushed-buffer}

-- A session holds at least one message, all from its source.
abbrev pub Holds : String → DebounceSession → Type 0
Holds k s = (is_empty s.buffer ≡ false) × All (λ m. m.source ≡ k) s.buffer

-- One session for each source, and each holds messages of its own source.
pub record IsValid (d : DebounceManager) : Type 0 where
  pub distinct : Distinct d.sessions
  pub held : Each Holds d.sessions

pub new-IsValid : (c : IngressDebounceConfig) → IsValid (new c)
new-IsValid c = record { distinct = tt; held = tt }

pub is_empty-snoc :
    (xs : List IngressMessage) (m : IngressMessage) → is_empty (xs ++ m ∷ []) ≡ false
is_empty-snoc [] m = refl
is_empty-snoc (x ∷ xs) m = refl

sources-buffer_of :
    (k : String) (o : Option DebounceSession)
    → ((s : DebounceSession) → o ≡ some s → Holds k s)
    → All (λ m. m.source ≡ k) (buffer_of o)
sources-buffer_of k none h = tt
sources-buffer_of k (some s) h = (h s refl).1

-- A manager that has one session for each source, none of them empty and each with messages of its
-- own source only, has that again after an `ingest` that returns.
pub ingest-IsValid :
    (d e : DebounceManager) (msg : IngressMessage) (now later : ℕ)
    → IsValid d
    → ingest d msg now later ≡ some e
    → IsValid e
ingest-IsValid d e msg now later v h =
    let (s, p, q) = ingest_inv d e msg now later h in
    let k = msg.source in
    let old = Dict.get k d.sessions in
    let same : s.buffer ≡ buffer_of old ++ msg ∷ [] =
      check_limits-buffer d.config later (pushed old msg now) s p ∙ pushed-buffer old msg now in
    let mine =
      All-append (λ (m : IngressMessage). m.source ≡ k) (buffer_of old) (msg ∷ [])
        (sources-buffer_of k old (λ t f. Each-get Holds k d.sessions t v.held f)) (refl, tt) in
    rw q (record {
      distinct = insert-Distinct k s d.sessions v.distinct;
      held =
          Each-insert Holds k s d.sessions
            (rw same (is_empty-snoc (buffer_of old) msg), rw same mine) v.held;
    })

-- The combined message of an entry of the map.
abbrev pub combined : (String → ℕ) → String × DebounceSession → Option IngressMessage
combined uuid e = combine_session (uuid e.0) e.0 e.1.buffer

combine_session-some :
    (uuid : ℕ) (k : String) (b : List IngressMessage)
    → is_empty b ≡ false
    → (out : IngressMessage) × (combine_session uuid k b ≡ some out)
unfolding combine_session
combine_session-some uuid k [] h = absurd (cc)
combine_session-some uuid k (m ∷ ms) h = (combine uuid k m ms, refl)

is_ready-full :
    (c : IngressDebounceConfig) (now : ℕ) (s : DebounceSession)
    → is_ready c now s ≡ true
    → is_empty s.buffer ≡ false
unfolding is_ready
is_ready-full c now s h = ground arith

drain_all_lem :
    (uuid : String → ℕ) (m : Dict DebounceSession)
    → Each Holds m
    → (out : List IngressMessage) × (drain_all uuid m ≡ some out)
      × (map some out ≡ map (combined uuid) m)
unfolding drain_all
drain_all_lem uuid [] h = ([], refl, refl)
drain_all_lem uuid ((k, s) ∷ m) h =
    let (out, runs, same) = drain_all_lem uuid m h.1 in
    let full = h.0.0 in
    let (x, made) = combine_session-some (uuid k) k s.buffer full in
    (x ∷ out, rw (full, made, runs), rw (made, same))

-- The loop of `flush_ready` never panics; it combines the ready sessions in order and lists them.
collect_ready_lem :
    (c : IngressDebounceConfig) (now : ℕ) (uuid : String → ℕ) (m : Dict DebounceSession)
    → (out : List IngressMessage) × (collect_ready c now uuid m
        ≡ some (out, keys (keep (λ e. is_ready c now e.1) m)))
      × (map some out ≡ map (combined uuid) (keep (λ e. is_ready c now e.1) m))
unfolding collect_ready
collect_ready_lem c now uuid [] = ([], refl, refl)
collect_ready_lem c now uuid ((k, s) ∷ m) =
    let (out, runs, same) = collect_ready_lem c now uuid m in
    elim (Bool-cases (is_ready c now s)) [
      | inl ready ↦
          let (x, made) = combine_session-some (uuid k) k s.buffer (is_ready-full c now s ready) in
          (x ∷ out, rw (ready, made, runs), rw (ready, made, same))
      | inr quiet ↦ (out, rw (quiet, runs), rw (quiet, same))
    ]

-- On a valid manager `flush_ready` never panics. It sends on exactly the sessions that are ready,
-- one combined message for each and in the order of the map; afterwards a source has the session
-- that it had, or none if that was ready; the settings stay and the manager is still valid.
pub flush_ready_lem :
    (d : DebounceManager) (now : ℕ) (uuid : String → ℕ)
    → IsValid d
    → (out : List IngressMessage) × (e : DebounceManager) × (flush_ready d now uuid ≡ some (out, e))
      × (map some out ≡ map (combined uuid) (keep (λ s. is_ready d.config now s.1) d.sessions))
      × ((k : String)
          → Dict.get k e.sessions ≡ (
              if test_at (is_ready d.config now) (Dict.get k d.sessions)
              then none
              else Dict.get k d.sessions))
      × (e.config ≡ d.config)
      × IsValid e
unfolding flush_ready
flush_ready_lem d now uuid v =
    let c = d.config in
    let (out, runs, same) = collect_ready_lem c now uuid d.sessions in
    let gone = keys (keep (λ e. is_ready c now e.1) d.sessions) in
    (
      out,
      record d { sessions = Dict.remove_all gone d.sessions },
      rw runs,
      same,
      λ k.
          get-remove_all gone k d.sessions
          ∙ ap (λ b. if b then none else Dict.get k d.sessions)
              (has-keys-keep (is_ready c now) k d.sessions v.distinct),
      refl,
      record {
        distinct = remove_all-Distinct gone d.sessions v.distinct;
        held = Each-remove_all Holds gone d.sessions v.held;
      },
    )

-- The same, of a flush that returned.
pub get-flush_ready :
    (d e : DebounceManager) (now : ℕ) (uuid : String → ℕ) (out : List IngressMessage) (k : String)
    → IsValid d
    → flush_ready d now uuid ≡ some (out, e)
    → Dict.get k e.sessions ≡ (
        if test_at (is_ready d.config now) (Dict.get k d.sessions)
        then none
        else Dict.get k d.sessions)
get-flush_ready d e now uuid out k v h =
    let (_, e', runs, _, at, _, _) = flush_ready_lem d now uuid v in
    let same : e' ≡ e = cc in rw (← same) (at k)

-- `flush_all` never panics on a valid manager: it sends every session on and empties the manager.
pub flush_all_lem :
    (d : DebounceManager) (uuid : String → ℕ)
    → IsValid d
    → (out : List IngressMessage) × (flush_all d uuid ≡ some (out, new d.config))
      × (map some out ≡ map (combined uuid) d.sessions)
unfolding flush_all
flush_all_lem d uuid v =
    let (out, runs, same) = drain_all_lem uuid d.sessions v.held in (out, rw runs, same)
