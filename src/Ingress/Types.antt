-- ===== src/Ingress/Types.antt =====
-- src/ingress/types.rs: the messages of the ingress bus.
use zier_alpha.Prelude.{ℕ, String, Text, List, []}

pub data TrustLevel : Type 0 where
  owner_command trusted_event untrusted_event : TrustLevel

-- `ImageAttachment` of src/agent/providers.rs.
pub record ImageAttachment : Type 0 where
  pub media_type : Text
  pub body : Text

pub record IngressMessage : Type 0 where
  pub id : ℕ
  pub source : String
  pub payload : Text
  pub trust : TrustLevel
  pub timestamp : ℕ
  pub images : List ImageAttachment

-- `IngressMessage::new`; the id and the time come from libraries, as arguments.
unfoldable pub new : ℕ → ℕ → String → Text → TrustLevel → IngressMessage
new uuid now source payload trust = record {
  id = uuid;
  source = source;
  payload = payload;
  trust = trust;
  timestamp = now;
  images = [];
}
