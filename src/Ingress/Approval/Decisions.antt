-- ===== src/Ingress/Approval/Decisions.antt =====
-- src/ingress/approval.rs: the requests and the user's answers in any order, and how many decisions
-- a request can get.
use zier_alpha.Prelude.Dict
use zier_alpha.Prelude.Dict.{
  Dict, keys, get-remove, Each, Each-insert, Each-remove, Each-remove_all, Each-update, Each-get,
}
use zier_alpha.Prelude.{
  ℕ, ◌+◌, ◌<◌, ◌≡◌, refl, ◌∙◌, String, List, [], ◌∷◌, none, some, false, arith, keep, eq_refl, All,
  nat_eq, Option-cases, inl, inr,
}
use zier_alpha.Ingress.Approval.{
  ApprovalDecision, PendingApproval, Pending, Event, register, send_failed, on_event,
  set_message_id, resolve, cleanup, is_expired, decision_received, message_sent, timed_out,
}
use zier_alpha.Ingress.Approval.Expiry.{left-remove_expired}
use zier_alpha.Ingress.Approval.Steps.{
  World, delivered, Step, requested, refused, happened, resolved, cleaned, Reachable, initial,
  after, is_sent, Once,
}
use zier_alpha.Ingress.Approval.Channels.{
  Apart, Each-map, Each-both, Apart-remove, Apart-remove_all, Apart-insert, Other-remove,
  Apart-update,
}

-- An entry's channel is one that was given out and has had no decision.
abbrev Open : ℕ → List (ℕ × ApprovalDecision) → String → PendingApproval → Type 0
Open next sent k e = (e.tx < next) × (is_sent e.tx sent ≡ false)

record IsValid (w : World) : Type 0 where
  apart : Apart w.pending
  unanswered : Each (Open w.next w.sent) w.pending
  given : All (λ d. d.0 < w.next) w.sent
  once : Once w.sent

is_sent-fresh :
    (n : ℕ) (ds : List (ℕ × ApprovalDecision)) → All (λ d. d.0 < n) ds → is_sent n ds ≡ false
is_sent-fresh n [] h = refl
is_sent-fresh n (d ∷ ds) (lt, h) = ground (arith, is_sent-fresh n ds h)

All-later :
    (n : ℕ) (ds : List (ℕ × ApprovalDecision)) → All (λ d. d.0 < n) ds → All (λ d. d.0 < n + 1) ds
All-later n [] h = tt
All-later n (d ∷ ds) (lt, h) = (omega arith, All-later n ds h)

-- A change of the entries that gives out no channel and sends nothing.
IsValid-pending :
    (w : World) (m : Pending)
    → IsValid w
    → Apart m
    → Each (Open w.next w.sent) m
    → IsValid (record w { pending = m })
IsValid-pending w m v apart open_ = record {
  apart = apart;
  unanswered = open_;
  given = v.given;
  once = v.once;
}

remove-IsValid :
    (k : String) (w : World) → IsValid w → IsValid (record w { pending = Dict.remove k w.pending })
remove-IsValid k w v =
    IsValid-pending w (Dict.remove k w.pending) v (Apart-remove k w.pending v.apart)
      (Each-remove (Open w.next w.sent) k w.pending v.unanswered)

event-IsValid :
    (k : String) (event : Event) (w : World)
    → IsValid w
    → IsValid (record w { pending = (on_event k event w.pending).1 })
unfolding on_event set_message_id
event-IsValid k (decision_received d) w v = v
event-IsValid k timed_out w v = remove-IsValid k w v
event-IsValid k (message_sent none) w v = v
event-IsValid k (message_sent (some id)) w v =
    IsValid-pending w _ v (Apart-update k _ w.pending (λ e. refl) v.apart)
      (Each-update (Open w.next w.sent) k _ w.pending (λ j e p. p) v.unanswered)

register-IsValid :
    (k : String) (chat_id deadline : ℕ) (w : World)
    → IsValid w
    → IsValid
        (record w { pending = register k chat_id w.next deadline w.pending; next = w.next + 1 })
unfolding register
register-IsValid k chat_id deadline w v = record {
  apart =
      Apart-insert k _ w.pending
        (Each-map (Open w.next w.sent) (λ j e. nat_eq e.tx w.next ≡ false) (λ j e p. ground arith)
          w.pending v.unanswered)
        v.apart;
  unanswered =
      Each-insert (Open (w.next + 1) w.sent) k _ w.pending
        (omega arith, is_sent-fresh w.next w.sent v.given)
        (Each-map (Open w.next w.sent) (Open (w.next + 1) w.sent) (λ j e p. (omega arith, p.1))
          w.pending v.unanswered);
  given = All-later w.next w.sent v.given;
  once = v.once;
}

resolve-none :
    (k : String) (d : ApprovalDecision) (m : Pending)
    → Dict.get k m ≡ none
    → resolve k d m ≡ (none, none, m)
unfolding resolve
resolve-none k d m absent = ground arith

resolve-some :
    (k : String) (d : ApprovalDecision) (m : Pending) (e : PendingApproval)
    → Dict.get k m ≡ some e
    → resolve k d m ≡ (some (e.chat_id, e.message_id), some (e.tx, d), Dict.remove k m)
unfolding resolve
resolve-some k d m e there = ground arith

-- Of two answers to one call the second finds nothing to resolve, and sends no decision.
pub resolve_twice :
    (k : String) (d d' : ApprovalDecision) (m : Pending)
    → resolve k d' (resolve k d m).2 ≡ (none, none, (resolve k d m).2)
resolve_twice k d d' m = elim (Option-cases (Dict.get k m)) [
  | inl absent ↦ rw (resolve-none k d m absent) (resolve-none k d' m absent)
  | inr (e, there) ↦
      rw (resolve-some k d m e there)
        (resolve-none k d' (Dict.remove k m) (get-remove k k m ∙ rw (eq_refl k)))
]

resolve-IsValid :
    (k : String) (d : ApprovalDecision) (w : World)
    → IsValid w
    → IsValid (record w {
      pending = (resolve k d w.pending).2;
      sent = delivered (resolve k d w.pending).1 w.sent;
    })
resolve-IsValid k d w v = elim (Option-cases (Dict.get k w.pending)) [
  | inl absent ↦ rw (resolve-none k d w.pending absent) v
  | inr (e, there) ↦
      let mine = Each-get (Open w.next w.sent) k w.pending e v.unanswered there in
      let left = Dict.remove k w.pending in
      rw (resolve-some k d w.pending e there) (record {
        apart = Apart-remove k w.pending v.apart;
        unanswered =
            Each-map _ (Open w.next ((e.tx, d) ∷ w.sent)) (λ j f p. (p.1.0, ground arith)) left
              (Each-both (λ j f. nat_eq f.tx e.tx ≡ false) (Open w.next w.sent) left
                (Other-remove k e w.pending there v.apart)
                (Each-remove (Open w.next w.sent) k w.pending v.unanswered));
        given = (mine.0, v.given);
        once = (mine.1, v.once);
      })
]

cleanup-IsValid :
    (now : ℕ) (w : World) → IsValid w → IsValid (record w { pending = (cleanup now w.pending).1 })
unfolding cleanup
cleanup-IsValid now w v =
    let ks = keys (keep (λ e. is_expired now e.1) w.pending) in
    rw (left-remove_expired ks w.pending) (
      IsValid-pending w (Dict.remove_all ks w.pending) v (Apart-remove_all ks w.pending v.apart)
        (Each-remove_all (Open w.next w.sent) ks w.pending v.unanswered))

Step-IsValid : (w v : World) → Step w v → IsValid w → IsValid v
unfolding send_failed
Step-IsValid w v (requested _ k chat_id deadline) h = register-IsValid k chat_id deadline w h
Step-IsValid w v (refused _ k) h = remove-IsValid k w h
Step-IsValid w v (happened _ k event) h = event-IsValid k event w h
Step-IsValid w v (resolved _ k d) h = resolve-IsValid k d w h
Step-IsValid w v (cleaned _ now) h = cleanup-IsValid now w h

Reachable-IsValid : (w : World) → Reachable w → IsValid w
Reachable-IsValid w initial = record { apart = tt; unanswered = tt; given = tt; once = tt }
Reachable-IsValid w (after u _ before step) = Step-IsValid u w step (Reachable-IsValid u before)

-- In whatever order requests are made, fail, time out, are answered and are cleaned up, no request's
-- channel gets two decisions, and the channel of an entry that is still pending has had none.
pub Reachable-Once :
    (w : World) → Reachable w → Once w.sent × Each (λ k e. is_sent e.tx w.sent ≡ false) w.pending
Reachable-Once w r =
    let v = Reachable-IsValid w r in
    (v.once, Each-map (Open w.next w.sent) _ (λ k e p. p.1) w.pending v.unanswered)
