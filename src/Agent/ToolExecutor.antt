-- ===== src/Agent/ToolExecutor.antt =====
-- src/agent/tool_executor.rs: tools are looked up by name, and some run only with an approval that
-- is good for one call. A tool is a name and what its call does to a state `W` of the world.
pub mod Approvals
pub mod Dispatch
use zier_alpha.Prelude.Dict.{has}
use zier_alpha.Prelude.{
  ℕ, String, Text, List, [], ◌∷◌, Option, none, some, Bool, true, false, not, ◌==◌, keep, codes,
  ltb, if◌then◌else◌,
}
use zier_alpha.Agent.LlmError.{ToolCall}
use zier_alpha.Agent.Client.{Failure}
use zier_alpha.Agent.Sanitize.{wrap_tool_output}

-- `ApprovalManager`: the identifiers of the calls that have been approved.
abbrev pub Approved : Type 0
Approved = List String

unfoldable pub approve : String → Approved → Approved
approve call_id set = if has call_id set then set else call_id ∷ set

-- `HashSet::remove`: whether it was there, and the set without it.
unfoldable pub consume : String → Approved → Bool × Approved
consume call_id set = (has call_id set, keep (λ j. not (j == call_id)) set)

pub data ToolResult : Type 0 where
  output : Text → ToolResult
  approval_required : String → ToolCall → ToolResult
  tool_failed : Failure → ToolResult
  unknown_tool : String → ToolResult

pub data ToolOutcome : Type 0 where
  returned : Text → ToolOutcome
  raised : Failure → ToolOutcome

pub record Tool {ℓ} (W : Type ℓ) : Type ℓ where
  pub name : String
  pub execute : Text → W → ToolOutcome × W

-- The part of `config.tools` that the executor reads.
pub record ToolsConfig : Type 0 where
  pub require_approval : List String
  pub use_content_delimiters : Bool
  pub tool_output_max_chars : ℕ

unfoldable pub requires_approval : ToolsConfig → String → Bool
requires_approval config tool_name = has tool_name config.require_approval

unfoldable pub max_chars : ToolsConfig → Option ℕ
max_chars config =
    if ltb 0 config.tool_output_max_chars then some config.tool_output_max_chars else none

-- `replace_ci` and `suspicious` are those of the sanitizer.
module _ (replace_ci : Text → Text → Text → Text) (suspicious : List ((Text → Bool) × Text)) where
  -- The text of a successful call, between delimiters if the settings say so.
  unfoldable pub finish : ToolsConfig → String → ToolOutcome → ToolResult
  unfolding max_chars
  finish config name (raised e) = tool_failed e
  finish config name (returned raw_output) =
      if config.use_content_delimiters
      then output
          (wrap_tool_output replace_ci suspicious (codes name) raw_output
            (max_chars config)).content
      else output raw_output

module _ {ℓ} {W : Type ℓ} (replace_ci : Text → Text → Text → Text)
    (suspicious : List ((Text → Bool) × Text)) where
  -- The loop over the tools: the first with the name runs.
  unfoldable pub dispatch : ToolsConfig → List (Tool W) → ToolCall → W → ToolResult × W
  dispatch config [] call w = (unknown_tool call.name, w)
  dispatch config (tool ∷ tools) call w =
      let (result, w') = tool.execute call.arguments w in
      let rest = dispatch config tools call w in
      if tool.name == call.name
      then (finish replace_ci suspicious config call.name result, w')
      else rest

  unfoldable pub execute_tool :
      ToolsConfig → List (Tool W) → ToolCall → Approved → W → ToolResult × Approved × W
  execute_tool config tools call approved w =
      let (result, w') = dispatch config tools call w in
      let (found, left) = consume call.id approved in
      if requires_approval config call.name
      then (if found then (result, left, w') else (approval_required call.name call, left, w))
      else (result, approved, w')
