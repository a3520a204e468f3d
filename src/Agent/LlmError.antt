-- ===== src/Agent/LlmError.antt =====
-- src/agent/llm_error.rs: the errors of a provider, and the HTTP status that they stand for.
use zier_alpha.Prelude.{
  ℕ, ◌≡◌, ◌↔◌, refl, String, Text, Option, none, some, Bool, true, false, arith, nat_eq,
}

-- `ToolCall` of src/agent/providers.rs.
pub record ToolCall : Type 0 where
  pub id : String
  pub name : String
  pub arguments : Text

-- A `reqwest::Error` is the status that it carries; the other libraries' errors are their texts.
pub data LlmError : Type 0 where
  approval_required : String → ToolCall → LlmError
  api_request_failed : Option ℕ → LlmError
  provider_error : ℕ → Text → LlmError
  rate_limit context_window_exceeded config_error io_error serialization_error unknown :
      Text → LlmError

unfoldable pub is_rate_limit : LlmError → Bool
is_rate_limit (rate_limit m) = true
is_rate_limit (provider_error status m) = nat_eq status 429
is_rate_limit (api_request_failed none) = false
is_rate_limit (api_request_failed (some status)) = nat_eq status 429
is_rate_limit _ = false

unfoldable pub status_code : LlmError → Option ℕ
status_code (provider_error status m) = some status
status_code (api_request_failed status) = status
status_code (rate_limit m) = some 429
status_code _ = none

-- An error is a rate limit exactly when its status code is 429.
pub is_rate_limit-status_code :
    (e : LlmError) → (is_rate_limit e ≡ true) ↔ (status_code e ≡ some 429)
unfolding is_rate_limit status_code
is_rate_limit-status_code (rate_limit m) = ((λ h. refl), (λ h. refl))
is_rate_limit-status_code (provider_error status m) = (λ h. ground arith, λ h. ground arith)
is_rate_limit-status_code (api_request_failed none) = (λ h. cc, λ h. cc)
is_rate_limit-status_code (api_request_failed (some status)) =
    (λ h. ground arith, λ h. ground arith)
is_rate_limit-status_code _ = (λ h. cc, λ h. cc)
