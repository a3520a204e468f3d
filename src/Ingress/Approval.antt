-- ===== src/Ingress/Approval.antt =====
-- src/ingress/approval.rs: requests for a person's approval, and the decisions on them.
-- A channel for one decision is named by a number, which the entry holds as its sender; an `i64` is
-- its bit pattern. `request` is its steps: the entry is made, the request to the user interface
-- fails or not, and then events come in any order until one ends it.
pub mod Steps
pub mod Channels
pub mod Expiry
pub mod Decisions
use Prim.Native.Nat.{◌^◌}
use zier_alpha.Prelude.Dict
use zier_alpha.Prelude.Dict.{Dict, keys}
use zier_alpha.Prelude.{
  ℕ, ◌-◌, String, List, [], ◌∷◌, Option, none, some, Bool, true, false, leb, keep,
}

pub data ApprovalDecision : Type 0 where
  approve deny : ApprovalDecision

pub record PendingApproval : Type 0 where
  pub chat_id : ℕ
  pub message_id : ℕ
  pub tx : ℕ
  pub timeout_at : ℕ

abbrev pub Pending : Type 0
Pending = Dict PendingApproval

-- The placeholder, minus one.
abbrev pub no_message : ℕ
no_message = 2 ^ 64 - 1

-- The start of `request`: an entry with this call's identifier is replaced.
unfoldable pub register : String → ℕ → ℕ → ℕ → Pending → Pending
register call_id chat_id tx deadline pending =
    Dict.insert call_id
      (record { chat_id = chat_id; message_id = no_message; tx = tx; timeout_at = deadline })
      pending

-- The user interface is gone.
unfoldable pub send_failed : String → Pending → Pending
send_failed call_id pending = Dict.remove call_id pending

-- What the loop of `request` waits for; a channel whose sender is gone gives `none`.
pub data Event : Type 0 where
  decision_received : Option ApprovalDecision → Event
  message_sent : Option ℕ → Event
  timed_out : Event

-- Where the loop goes on, it has the identifier of the message.
pub data Wait : Type 0 where
  returned : Option ApprovalDecision → Wait
  waiting : Wait

abbrev with_message : ℕ → PendingApproval → PendingApproval
with_message id entry = record entry { message_id = id }

unfoldable pub set_message_id : String → Option ℕ → Pending → Pending
set_message_id call_id none pending = pending
set_message_id call_id (some id) pending = Dict.update call_id (with_message id) pending

-- One round of the loop.
unfoldable pub on_event : String → Event → Pending → Wait × Pending
on_event call_id (decision_received d) pending = (returned d, pending)
on_event call_id (message_sent id) pending = (waiting, set_message_id call_id id pending)
on_event call_id timed_out pending = (returned none, Dict.remove call_id pending)

-- `resolve`: what it returns, what it sends to which channel, and the entries that are left.
unfoldable pub resolve :
    String → ApprovalDecision → Pending → Option (ℕ × ℕ) × Option (ℕ × ApprovalDecision) × Pending
resolve call_id decision pending = elim (Dict.get call_id pending) [
  | some entry ↦ (
    some (entry.chat_id, entry.message_id),
    some (entry.tx, decision),
    Dict.remove call_id pending,
  )
  | none ↦ (none, none, pending)
]

abbrev pub is_expired : ℕ → PendingApproval → Bool
is_expired now entry = leb entry.timeout_at now

-- The second loop of `cleanup`.
unfoldable pub remove_expired : List String → Pending → List (String × ℕ × ℕ) × Pending
remove_expired [] pending = ([], pending)
remove_expired (call_id ∷ to_remove) pending =
    let (expired, left) = remove_expired to_remove (Dict.remove call_id pending) in
    elim (Dict.get call_id pending) [
      | some entry ↦ ((call_id, entry.chat_id, entry.message_id) ∷ expired, left)
      | none ↦ (expired, left)
    ]

unfoldable pub cleanup : ℕ → Pending → List (String × ℕ × ℕ) × Pending
unfolding remove_expired
cleanup now pending = remove_expired (keys (keep (λ e. is_expired now e.1) pending)) pending
