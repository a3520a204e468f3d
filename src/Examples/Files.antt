-- ===== src/Examples/Files.antt =====
-- src/agent/session.rs with a printer of JSON that names the three values that a file of the example has.
use zier_alpha.Prelude.{
  ℕ, zero, ◌≡◌, refl, String, Text, List, [], ◌∷◌, Option, none, some, codes, true, false, arith,
  text_eq, ◌>>=◌, if◌then◌else◌,
}
use zier_alpha.Agent.Messages.{SessionMessage, plain, assistant, system}
use zier_alpha.Agent.Json.{Json, null, number, get, index, as_str, as_u64}
use zier_alpha.Agent.Session.{Session, recalculate_tokens}
use zier_alpha.Agent.Session.Format.{Serde, format_message_entry, option_or, is_str}
use zier_alpha.Agent.Session.Files.{header_entry, save_to_path, load_from_path}
use zier_alpha.Agent.Session.Files.RoundTrip.{IsWritable, load_from_path-save_to_path}

abbrev said : ℕ → SessionMessage
said n = record {
  message = plain assistant (codes "hello");
  provider = some (codes "openai");
  model = none;
  api = none;
  usage = none;
  stop_reason = none;
  timestamp = n;
  model_config_name = none;
  latency_ms = some 5;
}

abbrev summary : SessionMessage
summary = record (said 1) { message = plain system (codes "so far") }

abbrev session : Session
session = record {
  id = "old";
  created_at = 3;
  cwd = codes "/work";
  messages = said 0 ∷ [];
  system_context = none;
  token_count = 8;
  compaction_count = 1;
  memory_flush_compaction_count = 0;
  dirty = true;
}

abbrev summarized : Session
summarized = record session { messages = summary ∷ said 0 ∷ [] }

-- A serde without a printer, which says what the values of the file are.
abbrev unprinted : Serde
unprinted = record {
  usage_to_value = λ u. none;
  usage_from_value = λ v. none;
  to_string = λ v. [];
  from_str = λ t. none;
  to_rfc3339 = λ n. codes "now";
  parse_from_rfc3339 = λ t. some 3;
}

abbrev header : Json
header = header_entry unprinted session

abbrev entry : SessionMessage → Json
entry = format_message_entry unprinted

abbrev name_of : Option ℕ → Text
name_of (some zero) = codes "zero"
name_of _ = codes "one"

abbrev print : Json → Text
print v = elim (get "message" v) [
  | none ↦ codes "header"
  | some m ↦ name_of (as_u64 (index "timestamp" m))
]

abbrev serde : Serde
serde = record unprinted {
  to_string = print;
  from_str = λ t.
      if text_eq t (codes "header")
      then some header
      else if text_eq t (codes "zero")
      then some (entry (said 0))
      else some (entry summary);
}

session-IsWritable : IsWritable serde session
session-IsWritable = record { by_time = refl; by_count = omega arith; by_flush = omega arith }

summarized-IsWritable : IsWritable serde summarized
summarized-IsWritable = record { by_time = refl; by_count = omega arith; by_flush = omega arith }

load_from_path-save_to_path_example :
    load_from_path serde none 9 "new" (save_to_path serde 4 session)
    ≡ record (recalculate_tokens none session) { id = "new"; dirty = false }
unfolding zier_alpha.Agent.Json.get_field zier_alpha.Prelude.is_whitespace text_eq
    zier_alpha.Agent.Session.Format.format_message
load_from_path-save_to_path_example =
    load_from_path-save_to_path serde none 4 9 "new" session session-IsWritable refl
      ((tt, refl), tt) ((refl, refl, refl), ((refl, refl, refl), tt))
