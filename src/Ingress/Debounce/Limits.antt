-- ===== src/Ingress/Debounce/Limits.antt =====
-- src/ingress/debounce.rs: when the message limits and the quiet time send a source on.
use zier_alpha.Prelude.Dict
use zier_alpha.Prelude.Dict.{Dict, test_at, get-insert}
use zier_alpha.Prelude.{
  ℕ, ◌≤◌, ◌≡◌, sym, subst, String, List, [], Option, none, some, true, false, arith, refl, eq_refl,
  is_empty, ◌∷◌, ◌++◌, ap, ◌∙◌, append-nil, if◌then◌else◌, ◌==◌,
}
use zier_alpha.Ingress.Types.{IngressMessage}
use zier_alpha.Ingress.Debounce.{
  DebounceManager, DebounceSession, IngressDebounceConfig, ingest, pushed, check_limits,
  over_limits, is_ready, flush_ready,
}
use zier_alpha.Ingress.Debounce.Buffers.{pending, pending-ingest, ingest_inv}
use zier_alpha.Ingress.Worker.Batches.{Batches, flush_ready-Batches}
use zier_alpha.Ingress.Debounce.Flush.{IsValid, ingest-IsValid, get-flush_ready, is_empty-snoc}

-- The session that `ingest` looks at when it checks the limits.
abbrev pub after_push : DebounceManager → IngressMessage → ℕ → DebounceSession
after_push d msg now = pushed (Dict.get msg.source d.sessions) msg now

get-ingest :
    (d e : DebounceManager) (msg : IngressMessage) (now later : ℕ)
    → ingest d msg now later ≡ some e
    → (s : DebounceSession) × (check_limits d.config later (after_push d msg now) ≡ some s)
      × (Dict.get msg.source e.sessions ≡ some s)
      × (e.config ≡ d.config)
get-ingest d e msg now later h =
    let (s, p, q) = ingest_inv d e msg now later h in
    (s, p, rw (q, get-insert, eq_refl msg.source), rw q)

check_limits_over :
    (c : IngressDebounceConfig) (later now : ℕ) (s t : DebounceSession)
    → over_limits c s ≡ true
    → is_empty s.buffer ≡ false
    → later ≤ now
    → check_limits c later s ≡ some t
    → is_ready c now t ≡ true
unfolding check_limits is_ready
check_limits_over c later now s t over full h e = ground arith

full-pushed :
    (o : Option DebounceSession) (msg : IngressMessage) (now : ℕ)
    → is_empty (pushed o msg now).buffer ≡ false
unfolding pushed
full-pushed none msg now = refl
full-pushed (some s) msg now = is_empty-snoc s.buffer msg

-- A flush that leaves nothing of a source sent on all that was held of it.
flush_ready-all :
    (e f : DebounceManager) (t : ℕ) (uuid : String → ℕ) (out held : List IngressMessage)
    (k : String)
    → IsValid e
    → flush_ready e t uuid ≡ some (out, f)
    → pending k f ≡ []
    → pending k e ≡ held
    → Batches k out held
flush_ready-all e f t uuid out held k v fl gone was =
    let (out', e', runs, _, _, split) = flush_ready-Batches e t uuid v in
    let (sent, batches, whole) = split k in
    let same : out' ≡ out = cc in
    let left : e' ≡ f = cc in
    let nothing : pending k e' ≡ [] = ap (pending k) left ∙ gone in
    let all : sent ≡ held =
      sym (append-nil sent) ∙ ap (λ r. sent ++ r) (sym nothing) ∙ sym whole ∙ was in
    subst (λ o. Batches k o held) same (subst (Batches k out') all batches)

-- In a valid manager, a message that takes its source over a limit is sent on by the next flush at
-- or after the clock reading of the limit check, with no quiet time. A flush that returns leaves
-- nothing held for the source, and the messages of the source that it sends on are those that were
-- held and the new one, in this order, combined.
pub ingest-over_limits :
    (d e f : DebounceManager) (msg : IngressMessage) (now later t : ℕ) (uuid : String → ℕ)
    (out : List IngressMessage)
    → IsValid d
    → ingest d msg now later ≡ some e
    → over_limits d.config (after_push d msg now) ≡ true
    → later ≤ t
    → flush_ready e t uuid ≡ some (out, f)
    → (pending msg.source f ≡ []) × Batches msg.source out (pending msg.source d ++ msg ∷ [])
ingest-over_limits d e f msg now later t uuid out v h over le fl =
    let (s, p, q, r) = get-ingest d e msg now later h in
    let gone =
      get-flush_ready e f t uuid out msg.source (ingest-IsValid d e msg now later v h) fl in
    let ready : is_ready e.config t s ≡ true =
      subst (λ c. is_ready c t s ≡ true) (sym r)
        (check_limits_over d.config later t (after_push d msg now) s over
          (full-pushed (Dict.get msg.source d.sessions) msg now) le p) in
    let nothing : pending msg.source f ≡ [] = rw (gone, q, ready) in
    let mine : msg.source == msg.source ≡ true = eq_refl msg.source in
    let held : pending msg.source e ≡ pending msg.source d ++ msg ∷ [] =
      pending-ingest d e msg now later msg.source h
      ∙ ap (λ b. pending msg.source d ++ (if b then msg ∷ [] else [])) mine in
    (
      nothing,
      flush_ready-all e f t uuid out (pending msg.source d ++ msg ∷ []) msg.source
          (ingest-IsValid d e msg now later v h) fl nothing held,
    )
