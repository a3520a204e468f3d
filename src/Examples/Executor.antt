-- ===== src/Examples/Executor.antt =====
-- src/agent/tool_executor.rs with two tools, one of which needs an approval.
use zier_alpha.Prelude.Dict.{has}
use zier_alpha.Prelude.{ℕ, ◌+◌, ◌≡◌, refl, String, Text, List, [], ◌∷◌, codes, false}
use zier_alpha.Agent.LlmError.{ToolCall}
use zier_alpha.Agent.ToolExecutor.{
  Approved, Tool, ToolsConfig, returned, ToolResult, approval_required, execute_tool,
  requires_approval,
}
use zier_alpha.Agent.ToolExecutor.Approvals.{execute_tool_twice, execute_tool-unapproved}

-- The world counts the calls.
abbrev tool : String → ℕ → Tool ℕ
tool name n = record { name = name; execute = λ args w. (returned (codes "done"), w + n) }

abbrev tools : List (Tool ℕ)
tools = tool "read" 1 ∷ tool "bash" 100 ∷ []

abbrev settings : ToolsConfig
settings = record {
  require_approval = "bash" ∷ [];
  use_content_delimiters = false;
  tool_output_max_chars = 0;
}

abbrev keep_text : Text → Text → Text → Text
keep_text pattern mark text = text

abbrev call : String → String → ToolCall
call id name = record { id = id; name = name; arguments = codes "{}" }

abbrev run : ToolCall → Approved → ℕ → ToolResult × Approved × ℕ
run = execute_tool keep_text [] settings tools

execute_tool_twice_example :
    ((run (call "7" "bash") (run (call "7" "bash") ("7" ∷ []) 0).1 5).0
      ≡ approval_required "bash" (call "7" "bash"))
    × ((run (call "7" "bash") (run (call "7" "bash") ("7" ∷ []) 0).1 5).2 ≡ 5)
unfolding requires_approval
execute_tool_twice_example =
    execute_tool_twice keep_text [] settings tools (call "7" "bash") ("7" ∷ []) 0 5 refl

execute_tool-unapproved_example :
    ((run (call "7" "bash") ("8" ∷ []) 0).0 ≡ approval_required "bash" (call "7" "bash"))
    × ((run (call "7" "bash") ("8" ∷ []) 0).2 ≡ 0)
    × ((j : String) → has j (run (call "7" "bash") ("8" ∷ []) 0).1 ≡ has j ("8" ∷ []))
unfolding requires_approval
execute_tool-unapproved_example =
    execute_tool-unapproved keep_text [] settings tools (call "7" "bash") ("8" ∷ []) 0 refl refl
