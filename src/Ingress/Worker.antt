-- ===== src/Ingress/Worker.antt =====
-- src/ingress/controller.rs, the debounce worker of `ingress_loop`: a loop that holds the messages
-- of the channel back and starts a task for each message that the debounce manager lets go.
-- A `Branch` is one that `select!` takes, with the clock readings and fresh ids it uses; the
-- channel closes after the last one. `none` is a panic of the worker.
pub mod Batches
use zier_alpha.Prelude.{String, ℕ, List, [], ◌∷◌, ◌++◌, Option, some, ◌>>=◌}
use zier_alpha.Ingress.Types.{IngressMessage}
use zier_alpha.Ingress.Debounce.{
  DebounceManager, IngressDebounceConfig, new, ingest, flush_ready, flush_all,
}

pub data Branch : Type 0 where
  received : IngressMessage → ℕ → ℕ → Branch
  ticked : ℕ → (String → ℕ) → Branch

-- One turn of the loop: the messages it starts a task for, and the manager after it.
unfoldable pub turn : DebounceManager → Branch → Option (List IngressMessage × DebounceManager)
turn d (received msg now later) = do e ← ingest d msg now later; some ([], e)
turn d (ticked now uuid) = flush_ready d now uuid

-- The turns and, once the channel is closed, the flush of what is left.
unfoldable pub turns : (String → ℕ) → DebounceManager → List Branch → Option (List IngressMessage)
turns uuid d [] = do (final_msgs, _) ← flush_all d uuid; some final_msgs
turns uuid d (branch ∷ branches) = do
  (ready, e) ← turn d branch
  rest ← turns uuid e branches
  some (ready ++ rest)

-- The messages a task is started for, in their order.
unfoldable pub worker :
    IngressDebounceConfig → (String → ℕ) → List Branch → Option (List IngressMessage)
worker c uuid branches = turns uuid (new c) branches
