-- ===== src/Examples/Approvals.antt =====
-- src/ingress/approval.rs on one request that is answered and one that times out.
use zier_alpha.Prelude.Dict
use zier_alpha.Prelude.Dict.{Each, test_at}
use zier_alpha.Prelude.{ℕ, ◌≡◌, [], ◌∷◌, false}
use zier_alpha.Ingress.Approval.{approve, Pending, PendingApproval, register, resolve}
use zier_alpha.Ingress.Approval.Steps.{
  World, requested, resolved, Reachable, initial, after, start, is_sent, Once,
}
use zier_alpha.Ingress.Approval.Decisions.{Reachable-Once}

abbrev entry : ℕ → ℕ → PendingApproval
entry tx deadline = record { chat_id = 5; message_id = 6; tx = tx; timeout_at = deadline }

abbrev pending : Pending
pending = ("a", entry 0 10) ∷ ("b", entry 1 20) ∷ []

abbrev asked : World
asked = record {
  pending =
      ("a", record { chat_id = 5; message_id = 18446744073709551615; tx = 0; timeout_at = 10 })
      ∷ [];
  next = 1;
  sent = [];
}

abbrev answered : World
answered = record { pending = []; next = 1; sent = (0, approve) ∷ [] }

asked-Reachable : Reachable asked
unfolding register Dict.insert
asked-Reachable = after start asked initial (requested start "a" 5 10)

answered-Reachable : Reachable answered
unfolding resolve Dict.get Dict.remove
answered-Reachable = after asked answered asked-Reachable (resolved asked "a" approve)

Reachable-Once_example :
    Once ((0, approve) ∷ [])
    × Each {V = PendingApproval} (λ k e. is_sent e.tx ((0, approve) ∷ []) ≡ false) []
Reachable-Once_example = Reachable-Once answered answered-Reachable
