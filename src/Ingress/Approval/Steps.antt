-- ===== src/Ingress/Approval/Steps.antt =====
-- src/ingress/approval.rs: the requests, the user's answers and the clean-up, one step after another.
use zier_alpha.Prelude.{
  ℕ, ◌+◌, ◌≡◌, String, List, [], ◌∷◌, Option, none, some, Bool, false, any, nat_eq,
}
use zier_alpha.Ingress.Approval.{
  ApprovalDecision, Pending, Event, register, send_failed, on_event, resolve, cleanup,
}

-- The entries, the number of the next channel, and the decisions sent so far, the last first.
pub record World : Type 0 where
  pub pending : Pending
  pub next : ℕ
  pub sent : List (ℕ × ApprovalDecision)

abbrev pub delivered :
    Option (ℕ × ApprovalDecision) → List (ℕ × ApprovalDecision) → List (ℕ × ApprovalDecision)
delivered none sent = sent
delivered (some d) sent = d ∷ sent

-- One step: of some request, of the user's answer, or of the periodic clean-up.
pub data Step : World → World → Type 0 where
  requested :
      (w : World) (call_id : String) (chat_id deadline : ℕ)
      → Step w (record w {
        pending = register call_id chat_id w.next deadline w.pending;
        next = w.next + 1;
      })
  refused :
      (w : World) (call_id : String) → Step w (record w { pending = send_failed call_id w.pending })
  happened :
      (w : World) (call_id : String) (event : Event)
      → Step w (record w { pending = (on_event call_id event w.pending).1 })
  resolved :
      (w : World) (call_id : String) (decision : ApprovalDecision)
      → Step w (record w {
        pending = (resolve call_id decision w.pending).2;
        sent = delivered (resolve call_id decision w.pending).1 w.sent;
      })
  cleaned : (w : World) (now : ℕ) → Step w (record w { pending = (cleanup now w.pending).1 })

abbrev pub start : World
start = record { pending = []; next = 0; sent = [] }

pub data Reachable : World → Type 0 where
  initial : Reachable start
  after : (w v : World) → Reachable w → Step w v → Reachable v

abbrev pub is_sent : ℕ → List (ℕ × ApprovalDecision) → Bool
is_sent t = any (λ d. nat_eq d.0 t)

-- No channel stands twice among the decisions.
abbrev pub Once : List (ℕ × ApprovalDecision) → Type 0
Once [] = Unit
Once (d ∷ ds) = (is_sent d.0 ds ≡ false) × Once ds
