-- ===== src/Agent/SessionStore.antt =====
-- src/agent/session_store.rs: the entries of sessions.json. The entries of the file are a parameter of
-- `load_and_update`, whose lock makes the reading, the change and the writing one step; the clock is an
-- argument.
pub mod Entries
use zier_alpha.Prelude.Dict
use zier_alpha.Prelude.Dict.{Dict}
use zier_alpha.Prelude.{
  ℕ, ◌+◌, ◌-◌, ◌*◌, String, Text, Option, none, some, Bool, true, false, ◌&&◌, ◌==◌, ltb, text_eq,
  [], if◌then◌else◌, ◌>>=◌,
}

pub record SessionEntry : Type 0 where
  pub session_id : String
  pub updated_at : ℕ
  pub cli_session_ids : Dict String
  pub claude_cli_session_id : Option String
  pub input_tokens : Option ℕ
  pub output_tokens : Option ℕ
  pub total_tokens : Option ℕ
  pub compaction_count : Option ℕ
  pub memory_flush_compaction_count : Option ℕ
  pub last_heartbeat_text : Option Text
  pub last_heartbeat_sent_at : Option ℕ

unfoldable pub new : ℕ → String → SessionEntry
new now session_id = record {
  session_id = session_id;
  updated_at = now;
  cli_session_ids = [];
  claude_cli_session_id = none;
  input_tokens = none;
  output_tokens = none;
  total_tokens = none;
  compaction_count = none;
  memory_flush_compaction_count = none;
  last_heartbeat_text = none;
  last_heartbeat_sent_at = none;
}

-- An identifier that is there and not empty.
abbrev pub filled : Option String → Option String
filled none = none
filled (some id) = if id == "" then none else some id

abbrev pub or_else : Option String → Option String → Option String
or_else none other = other
or_else (some id) other = some id

unfoldable pub get_cli_session_id : String → SessionEntry → Option String
get_cli_session_id provider e =
    or_else (filled (Dict.get provider e.cli_session_ids))
      (if provider == "claude-cli" then filled e.claude_cli_session_id else none)

unfoldable pub set_cli_session_id : ℕ → String → String → SessionEntry → SessionEntry
set_cli_session_id now provider session_id e = record e {
  cli_session_ids = Dict.insert provider session_id e.cli_session_ids;
  claude_cli_session_id =
      if provider == "claude-cli" then some session_id else e.claude_cli_session_id;
  updated_at = now;
}

abbrev pub dedup_window_ms : ℕ
dedup_window_ms = 24 * 60 * 60 * 1000

-- `saturating_sub` is the subtraction on ℕ.
unfoldable pub is_duplicate_heartbeat : ℕ → Text → SessionEntry → Bool
is_duplicate_heartbeat now t e = elim e.last_heartbeat_text [
  | none ↦ false
  | some last_text ↦ elim e.last_heartbeat_sent_at [
    | none ↦ false
    | some last_sent_at ↦ ltb (now - last_sent_at) dedup_window_ms && text_eq last_text t
  ]
]

unfoldable pub record_heartbeat : ℕ → Text → SessionEntry → SessionEntry
record_heartbeat now t e = record e {
  last_heartbeat_text = some t;
  last_heartbeat_sent_at = some now;
  updated_at = now;
}

unfoldable pub get_or_create :
    ℕ → String → String → Dict SessionEntry → SessionEntry × Dict SessionEntry
unfolding new
get_or_create now session_key session_id entries = elim (Dict.get session_key entries) [
  | some e ↦ (e, entries)
  | none ↦ let e = new now session_id in (e, Dict.insert session_key e entries)
]

-- The entries after an update, which are saved.
unfoldable pub update :
    ℕ → String → String → (SessionEntry → SessionEntry) → Dict SessionEntry → Dict SessionEntry
unfolding get_or_create
update now session_key session_id f entries =
    let (e, entries') = get_or_create now session_key session_id entries in
    Dict.insert session_key (record (f e) { updated_at = now }) entries'

-- What is in the file counts, if there is a file, and not what the store has in memory; a file that
-- does not parse counts as empty.
unfoldable pub load_and_update :
    Option (Option (Dict SessionEntry))
    → ℕ
    → String
    → String
    → (SessionEntry → SessionEntry)
    → Dict SessionEntry
    → Dict SessionEntry
unfolding update
load_and_update none now session_key session_id f entries =
    update now session_key session_id f entries
load_and_update (some none) now session_key session_id f entries =
    update now session_key session_id f []
load_and_update (some (some on_disk)) now session_key session_id f entries =
    update now session_key session_id f on_disk

unfoldable pub cli_session_of : String → String → Dict SessionEntry → Option String
unfolding get_cli_session_id
cli_session_of session_key provider entries =
    Dict.get session_key entries >>= get_cli_session_id provider
