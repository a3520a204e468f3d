-- ===== src/Agent/ToolExecutor/Dispatch.antt =====
-- src/agent/tool_executor.rs: which tool answers a call, and what becomes of its answer.
use zier_alpha.Prelude.{
  ◌≡◌, refl, Text, List, [], ◌∷◌, ◌++◌, Bool, true, false, ◌==◌, arith, any, Bool-cases, inl, inr,
}
use zier_alpha.Agent.LlmError.{ToolCall}
use zier_alpha.Agent.ToolExecutor.{Tool, ToolsConfig, unknown_tool, dispatch, finish}

module _ {ℓ} {W : Type ℓ} (replace_ci : Text → Text → Text → Text)
    (suspicious : List ((Text → Bool) × Text)) (config : ToolsConfig) (call : ToolCall)
    (w : W) where
  abbrev pub named : List (Tool W) → Bool
  named = any (λ t. t.name == call.name)

  -- The first tool with the name of the call runs, once, on the arguments of the call; no tool
  -- before or after it does.
  pub dispatch_first :
      (before : List (Tool W)) (t : Tool W) (after : List (Tool W))
      → named before ≡ false
      → (t.name == call.name) ≡ true
      → dispatch replace_ci suspicious config (before ++ t ∷ after) call w ≡ (
        finish replace_ci suspicious config call.name (t.execute call.arguments w).0,
        (t.execute call.arguments w).1,
      )
  unfolding dispatch
  dispatch_first [] t after none_before found = rw found
  dispatch_first (u ∷ before) t after none_before found = elim (Bool-cases (u.name == call.name)) [
    | inl earlier ↦ absurd (ground arith)
    | inr other ↦ rw other (dispatch_first before t after (ground arith) found)
  ]

  -- Without a tool of that name the call is an error and the world stays as it was.
  pub dispatch-unknown :
      (tools : List (Tool W))
      → named tools ≡ false
      → dispatch replace_ci suspicious config tools call w ≡ (unknown_tool call.name, w)
  unfolding dispatch
  dispatch-unknown [] absent = refl
  dispatch-unknown (u ∷ tools) absent = elim (Bool-cases (u.name == call.name)) [
    | inl earlier ↦ absurd (ground arith)
    | inr other ↦ rw other (dispatch-unknown tools (ground arith))
  ]
