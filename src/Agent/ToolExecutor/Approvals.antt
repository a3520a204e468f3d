-- ===== src/Agent/ToolExecutor/Approvals.antt =====
-- src/agent/tool_executor.rs: an approval lets one call through, and only its own.
use zier_alpha.Prelude.Dict.{has}
use zier_alpha.Prelude.{
  ◌≡◌, refl, sym, subst, ◌∙◌, String, Text, List, [], ◌∷◌, Bool, true, false, not, ◌&&◌, ◌||◌, ◌==◌,
  eq_iff, eq_refl, arith, if◌then◌else◌, Bool-cases, inl, inr,
}
use zier_alpha.Agent.LlmError.{ToolCall}
use zier_alpha.Agent.ToolExecutor.{
  Approved, approve, consume, Tool, ToolsConfig, ToolResult, approval_required, dispatch,
  execute_tool, requires_approval,
}

-- Approving a call makes it, and no other, approved in addition.
pub has-approve : (k j : String) (set : Approved) → has j (approve k set) ≡ (k == j || has j set)
unfolding approve
has-approve k j set = elim (Bool-cases (has k set)) [
  | inl there ↦ elim (Bool-cases (k == j)) [
    | inl same ↦ rw there (rw same (rw (← ((eq_iff k j).0 same)) there))
    | inr other ↦ rw there (rw other)
  ]
  | inr new ↦ rw new
]

-- Consuming a call's approval takes it, and no other, away.
pub has-consume :
    (k j : String) (set : Approved)
    → has j (consume k set).1 ≡ (if k == j then false else has j set)
unfolding consume
has-consume k j [] = ground arith
has-consume k j (i ∷ set) = ground (arith, has-consume k j set, eq_iff i k, eq_iff i j, eq_iff k j)

module _ {ℓ} {W : Type ℓ} (replace_ci : Text → Text → Text → Text)
    (suspicious : List ((Text → Bool) × Text)) (config : ToolsConfig) (tools : List (Tool W))
    (call : ToolCall) (approved : Approved) (w : W) where
  abbrev run : ToolResult × Approved × W
  run = execute_tool replace_ci suspicious config tools call approved w

  run-refused :
      requires_approval config call.name ≡ true
      → has call.id approved ≡ false
      → run ≡ (approval_required call.name call, (consume call.id approved).1, w)
  unfolding execute_tool consume
  run-refused needs missing = rw needs (rw missing)

  run-approved :
      requires_approval config call.name ≡ true
      → has call.id approved ≡ true
      → run ≡ (
        (dispatch replace_ci suspicious config tools call w).0,
        (consume call.id approved).1,
        (dispatch replace_ci suspicious config tools call w).1,
      )
  unfolding execute_tool consume
  run-approved needs there = rw needs (rw there)

  run-free :
      requires_approval config call.name ≡ false
      → run ≡ (
        (dispatch replace_ci suspicious config tools call w).0,
        approved,
        (dispatch replace_ci suspicious config tools call w).1,
      )
  unfolding execute_tool
  run-free free = rw free

  -- A call that needs an approval and has none is refused: no tool runs, so the world is as it was,
  -- and so is every approval.
  pub execute_tool-unapproved :
      requires_approval config call.name ≡ true
      → has call.id approved ≡ false
      → (run.0 ≡ approval_required call.name call)
        × (run.2 ≡ w)
        × ((j : String) → has j run.1 ≡ has j approved)
  execute_tool-unapproved needs missing = rw (run-refused needs missing) (
    refl,
    refl,
    λ j. has-consume call.id j approved ∙ elim (Bool-cases (call.id == j)) [
      | inl same ↦
          rw same (sym (subst (λ k. has k approved ≡ false) ((eq_iff call.id j).0 same) missing))
      | inr other ↦ rw other
    ],
  )

  -- Every run of a call that needs an approval leaves that call without one, whatever became of it,
  -- and leaves all other approvals; a call that needs none leaves them all.
  pub has-execute_tool :
      (j : String)
      → has j run.1
        ≡ (if requires_approval config call.name && call.id == j then false else has j approved)
  has-execute_tool j = elim (Bool-cases (requires_approval config call.name)) [
    | inl needs ↦ elim (Bool-cases (has call.id approved)) [
      | inl there ↦ rw (run-approved needs there) (rw needs (has-consume call.id j approved))
      | inr missing ↦ rw (run-refused needs missing) (rw needs (has-consume call.id j approved))
    ]
    | inr free ↦ rw (run-free free) (rw free)
  ]

  -- With its approval, or needing none, a call is dispatched to the tools in the world that it meets.
  pub execute_tool-dispatch :
      (requires_approval config call.name && not (has call.id approved)) ≡ false
      → (run.0 ≡ (dispatch replace_ci suspicious config tools call w).0)
        × (run.2 ≡ (dispatch replace_ci suspicious config tools call w).1)
  execute_tool-dispatch h = elim (Bool-cases (requires_approval config call.name)) [
    | inl needs ↦
        let there : has call.id approved ≡ true = ground arith in
        rw (run-approved needs there) (refl, refl)
    | inr free ↦ rw (run-free free) (refl, refl)
  ]

module _ {ℓ} {W : Type ℓ} (replace_ci : Text → Text → Text → Text)
    (suspicious : List ((Text → Bool) × Text)) (config : ToolsConfig) (tools : List (Tool W)) where
  -- After a run of a call that needs an approval, a second run of the same call is refused: it runs
  -- no tool and leaves the world, whatever that is by then, as it was.
  pub execute_tool_twice :
      (call : ToolCall) (approved : Approved) (w v : W)
      → requires_approval config call.name ≡ true
      → let first = execute_tool replace_ci suspicious config tools call approved w in
        let second = execute_tool replace_ci suspicious config tools call first.1 v in
        (second.0 ≡ approval_required call.name call) × (second.2 ≡ v)
  execute_tool_twice call approved w v needs =
      let left = (execute_tool replace_ci suspicious config tools call approved w).1 in
      let gone : has call.id left ≡ false =
        has-execute_tool replace_ci suspicious config tools call approved w call.id
        ∙ rw (needs, eq_refl call.id) in
      let refused =
        execute_tool-unapproved replace_ci suspicious config tools call left v needs gone in
      (refused.0, refused.1)
