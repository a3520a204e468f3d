-- ===== src/Agent/Session/Files.antt =====
-- src/agent/session.rs, `save_to_path` and `load_from_path`: a session as the text of its file, one JSON
-- value on each line. Reading and writing the text itself is not modelled.
pub mod Lines
pub mod RoundTrip
pub mod Summary
use Prim.Native.Nat.{◌%◌, ◌^◌}
use zier_alpha.Memory.Chunks.{lines}
use zier_alpha.Prelude.{
  ℕ, String, Text, List, [], ◌∷◌, ◌++◌, map, Option, none, some, Bool, true, false, ◌&&◌, not, all,
  is_empty, is_whitespace, codes, ◌>>=◌, if◌then◌else◌,
}
use zier_alpha.Agent.Messages
use zier_alpha.Agent.Messages.{Message, SessionMessage, system, plain, is_system}
use zier_alpha.Agent.Json.{
  Json, number, string, array, object, Fields, end, field, get, index, as_str, as_u64, as_array,
}
use zier_alpha.Agent.Session.{Session, recalculate_tokens, next_u32}
use zier_alpha.Agent.Session.Format.{
  Serde, format_message_entry, parse_pi_message, is_str, option_or, filter_map,
}

-- `CURRENT_SESSION_VERSION`
abbrev current_session_version : ℕ
current_session_version = 1

-- `line.trim().is_empty()`
abbrev pub is_blank : Text → Bool
is_blank = all is_whitespace

abbrev pub fresh : ℕ → String → Session
fresh now id = record {
  id = id;
  created_at = now;
  cwd = codes ".";
  messages = [];
  system_context = none;
  token_count = 0;
  compaction_count = 0;
  memory_flush_compaction_count = 0;
  dirty = false;
}

-- `count as u32`
abbrev as_u32 : ℕ → ℕ
as_u32 n = n % 2 ^ 32

abbrev pub add : SessionMessage → Session → Session
add sm s = record s { messages = s.messages ++ sm ∷ [] }

-- A system message is the context if there is none yet; any other message is added.
unfoldable pub take_into : Option Text → SessionMessage → Session → Session
take_into none sm s =
    if is_system sm.message.role
    then record s { system_context = some sm.message.content }
    else add sm s
take_into (some context) sm s = add sm s

unfoldable pub take_message : SessionMessage → Session → Session
unfolding take_into
take_message sm s = take_into s.system_context sm s

module _ (d : Serde) where
  abbrev pub header_entry : Session → Json
  header_entry s = object (
      field "type" (string (codes "session")) (
        field "version" (number current_session_version) (
          field "id" (string (codes s.id)) (
            field "timestamp" (string (d.to_rfc3339 s.created_at)) (
              field "cwd" (string s.cwd) (
                field "compactionCount" (number s.compaction_count) (
                  field "memoryFlushCompactionCount" (number s.memory_flush_compaction_count)
                    end)))))))

  -- The message that stands for the context, made at `now`.
  abbrev pub context_messages : ℕ → Option Text → List SessionMessage
  context_messages now none = []
  context_messages now (some context) = Messages.new now (plain system context) ∷ []

  abbrev pub file_entries : ℕ → Session → List Json
  file_entries now s =
      header_entry s
      ∷ map (format_message_entry d) (context_messages now s.system_context ++ s.messages)

  unfoldable pub write_entries : List Json → Text
  write_entries [] = []
  write_entries (v ∷ vs) = d.to_string v ++ 10 ∷ write_entries vs

  unfoldable pub save_to_path : ℕ → Session → Text
  unfolding write_entries
  save_to_path now s = write_entries (file_entries now s)

  -- `auto_save`: the text that is written, if any, and the session after it.
  unfoldable pub auto_save : ℕ → Session → Option Text × Session
  unfolding save_to_path
  auto_save now s =
      if s.dirty && not (is_empty s.messages)
      then (some (save_to_path now s), record s { dirty = false })
      else (none, s)

  unfoldable pub read_header : Json → Session → Session
  read_header entry s = record s {
    created_at = option_or s.created_at (as_str (index "timestamp" entry) >>= d.parse_from_rfc3339);
    cwd = option_or s.cwd (as_str (index "cwd" entry));
    compaction_count =
        option_or s.compaction_count
          (as_u64 (index "compactionCount" entry) >>= λ n. some (as_u32 n));
    memory_flush_compaction_count =
        option_or s.memory_flush_compaction_count
          (as_u64 (index "memoryFlushCompactionCount" entry) >>= λ n. some (as_u32 n));
  }

  unfoldable pub read_message : Json → Session → Session
  unfolding take_message
  read_message entry s = elim (get "message" entry >>= parse_pi_message d) [
    | none ↦ s
    | some sm ↦ take_message sm s
  ]

  unfoldable pub read_entry : Json → Session → Session
  unfolding read_header read_message
  read_entry entry s =
      if is_str (codes "session") (index "type" entry)
      then read_header entry s
      else if is_str (codes "message") (index "type" entry)
      then read_message entry s
      else s

  -- A blank line and a line that is no JSON are passed over.
  unfoldable pub read_line : Text → Session → Session
  unfolding read_entry
  read_line line s =
      if is_blank line
      then s
      else elim (d.from_str line) [ none ↦ s | some entry ↦ read_entry entry s ]

  unfoldable pub read_lines : List Text → Session → Session
  unfolding read_line
  read_lines [] s = s
  read_lines (line ∷ rest) s = read_lines rest (read_line line s)

  unfoldable pub load_from_path : Option (Text → ℕ) → ℕ → String → Text → Session
  unfolding read_lines
  load_from_path bpe now id text = recalculate_tokens bpe (read_lines (lines text) (fresh now id))

  unfoldable pub replaced_messages : Json → List SessionMessage → List SessionMessage
  replaced_messages val old = option_or old (do
    msgs_arr ← get "messages" val >>= as_array
    some (filter_map (parse_pi_message d) msgs_arr))

  -- `replace_messages_from_json`; `none` is the error of a text that is no JSON.
  unfoldable pub replace_messages_from_json : Option (Text → ℕ) → Text → Session → Option Session
  unfolding replaced_messages
  replace_messages_from_json bpe json_str s = do
    val ← d.from_str json_str
    let context =
          option_or s.system_context (get "system_context" val >>= as_str >>= λ t. some (some t)) in
        some
          (record (recalculate_tokens bpe (record s {
            system_context = context;
            messages = replaced_messages val s.messages;
            compaction_count = next_u32 s.compaction_count;
          })) { dirty = true })
