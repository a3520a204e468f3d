-- ===== src/Agent/Messages.antt =====
-- src/agent/providers.rs and src/agent/session.rs: messages, their token usage and their metadata.
use zier_alpha.Prelude.{
  ℕ, ◌+◌, String, Text, List, [], Option, none, some, Bool, true, false, ◌++◌, codes,
}
use zier_alpha.Ingress.Types.{ImageAttachment}
use zier_alpha.Agent.LlmError.{ToolCall}

pub data Role : Type 0 where
  system user assistant tool : Role

abbrev pub is_system : Role → Bool
is_system system = true
is_system _ = false

abbrev pub is_assistant : Role → Bool
is_assistant assistant = true
is_assistant _ = false

abbrev pub is_dialogue : Role → Bool
is_dialogue user = true
is_dialogue assistant = true
is_dialogue _ = false

-- `{:?}` of a role.
abbrev pub role_name : Role → Text
role_name system = codes "System"
role_name user = codes "User"
role_name assistant = codes "Assistant"
role_name tool = codes "Tool"

pub record Message : Type 0 where
  pub role : Role
  pub content : Text
  pub tool_calls : Option (List ToolCall)
  pub tool_call_id : Option String
  pub images : List ImageAttachment

-- A message of text alone.
abbrev pub plain : Role → Text → Message
plain role content = record {
  role = role;
  content = content;
  tool_calls = none;
  tool_call_id = none;
  images = [];
}

pub record Usage : Type 0 where
  pub input_tokens : ℕ
  pub output_tokens : ℕ

unfoldable pub total : Usage → ℕ
total u = u.input_tokens + u.output_tokens

-- An `f64` is its bit pattern.
pub record MessageCost : Type 0 where
  pub input : ℕ
  pub output : ℕ
  pub total : ℕ

pub record MessageUsage : Type 0 where
  pub input : ℕ
  pub output : ℕ
  pub cache_read : Option ℕ
  pub cache_write : Option ℕ
  pub total_tokens : ℕ
  pub cost : Option MessageCost

-- `MessageUsage::from`
unfoldable pub usage_from : Usage → MessageUsage
usage_from u = record {
  input = u.input_tokens;
  output = u.output_tokens;
  cache_read = none;
  cache_write = none;
  total_tokens = total u;
  cost = none;
}

pub record SessionMessage : Type 0 where
  pub message : Message
  pub provider : Option Text
  pub model : Option Text
  pub api : Option Text
  pub usage : Option MessageUsage
  pub stop_reason : Option Text
  pub timestamp : ℕ
  pub model_config_name : Option Text
  pub latency_ms : Option ℕ

-- `SessionMessage::new`, at a time.
unfoldable pub new : ℕ → Message → SessionMessage
new now message = record {
  message = message;
  provider = none;
  model = none;
  api = none;
  usage = none;
  stop_reason = none;
  timestamp = now;
  model_config_name = none;
  latency_ms = none;
}

abbrev map_option {ℓ κ} : {A : Type ℓ} {B : Type κ} → (A → B) → Option A → Option B
map_option f none = none
map_option f (some a) = some (f a)

-- `SessionMessage::with_metadata`, at a time.
unfoldable pub with_metadata :
    ℕ → Message → Option Text → Option Text → Option Usage → Option Text → SessionMessage
with_metadata now message provider model usage stop_reason = record {
  message = message;
  provider = provider;
  model = model;
  api = map_option (λ p. p ++ codes "-messages") provider;
  usage = map_option usage_from usage;
  stop_reason = stop_reason;
  timestamp = now;
  model_config_name = none;
  latency_ms = none;
}
