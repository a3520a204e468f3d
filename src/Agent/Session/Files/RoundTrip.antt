-- ===== src/Agent/Session/Files/RoundTrip.antt =====
-- src/agent/session.rs: a session that is saved and loaded again.
use Prim.Native.Nat.{◌%◌, ◌^◌}
use zier_alpha.Prelude.{
  ℕ, ◌<◌, ◌≡◌, refl, sym, ap, ◌∙◌, String, Text, List, [], ◌∷◌, ◌++◌, append_assoc, append-nil, map,
  Option, none, some, false, any, All, arith, text_eq,
}
use zier_alpha.Agent.Messages
use zier_alpha.Agent.Messages.{Message, SessionMessage, system, plain, is_system}
use zier_alpha.Agent.Json.{Json, get_field}
use zier_alpha.Agent.Session.{Session, recalculate_tokens}
use zier_alpha.Agent.Session.Format.{Serde, format_message_entry, is_str, option_or}
use zier_alpha.Agent.Session.Reread.{IsStorable, parse_pi_message-format_message}
use zier_alpha.Agent.Session.Files.{
  is_blank, fresh, add, take_into, take_message, header_entry, context_messages, file_entries,
  save_to_path, read_header, read_message, read_entry, read_line, read_lines, load_from_path,
}
use zier_alpha.Agent.Session.Files.Lines.{IsOneLine, lines-write_entries}

module _ (d : Serde) where
  -- serde_json prints a value on one line that is not blank, and reads it back.
  abbrev pub Prints : Json → Type 0
  Prints v =
      IsOneLine (d.to_string v)
      × (is_blank (d.to_string v) ≡ false)
      × (d.from_str (d.to_string v) ≡ some v)

  Prints-IsOneLine : (vs : List Json) → All Prints vs → All (λ v. IsOneLine (d.to_string v)) vs
  Prints-IsOneLine [] h = tt
  Prints-IsOneLine (v ∷ vs) (now, later) = (now.0, Prints-IsOneLine vs later)

  read_line-to_string :
      (v : Json) (s : Session) → Prints v → read_line d (d.to_string v) s ≡ read_entry d v s
  unfolding read_line
  read_line-to_string v s (_, filled, back) = rw (read_line, filled, back)

  read_entry-format :
      (sm : SessionMessage) (s : Session)
      → IsStorable d sm
      → read_entry d (format_message_entry d sm) s ≡ take_message sm s
  unfolding read_entry read_message is_str get_field text_eq
  read_entry-format sm s h =
      ap (λ o. elim o [ none ↦ s | some m ↦ take_message m s ])
        (parse_pi_message-format_message d sm h)

  abbrev pub take_messages : List SessionMessage → Session → Session
  take_messages [] s = s
  take_messages (sm ∷ ms) s = take_messages ms (take_message sm s)

  read_lines-messages :
      (ms : List SessionMessage) (s : Session)
      → All (IsStorable d) ms
      → All Prints (map (format_message_entry d) ms)
      → read_lines d (map d.to_string (map (format_message_entry d) ms)) s ≡ take_messages ms s
  unfolding read_lines
  read_lines-messages [] s h p = refl
  read_lines-messages (sm ∷ ms) s (now, later) (print, prints) =
      let here =
        read_line-to_string (format_message_entry d sm) s print ∙ read_entry-format sm s now in
      ap (read_lines d (map d.to_string (map (format_message_entry d) ms))) here
      ∙ read_lines-messages ms (take_message sm s) later prints

  -- The counts are `u32` and chrono reads the time that it has printed.
  pub record IsWritable (s : Session) : Type 0 where
    pub by_time : d.parse_from_rfc3339 (d.to_rfc3339 s.created_at) ≡ some s.created_at
    pub by_count : s.compaction_count < 2 ^ 32
    pub by_flush : s.memory_flush_compaction_count < 2 ^ 32

  abbrev pub headed : Session → String → Session
  headed s id = record s {
    id = id;
    messages = [];
    system_context = none;
    token_count = 0;
    dirty = false;
  }

  read_header-header_entry :
      (s : Session) (now : ℕ) (id : String)
      → IsWritable s
      → read_entry d (header_entry d s) (fresh now id) ≡ headed s id
  unfolding read_entry read_header is_str get_field text_eq
  read_header-header_entry s now id h =
      let time = ap (option_or now) h.by_time in
      let count : s.compaction_count % 2 ^ 32 ≡ s.compaction_count = omega (arith, h.by_count) in
      let flush : s.memory_flush_compaction_count % 2 ^ 32 ≡ s.memory_flush_compaction_count =
        omega (arith, h.by_flush) in
      λ i. record (headed s id) {
        created_at = time i;
        compaction_count = count i;
        memory_flush_compaction_count = flush i;
      }

  abbrev pub appended : Session → List SessionMessage → Session
  appended s ms = record s { messages = s.messages ++ ms }

  appended-nil : (s : Session) → appended s [] ≡ s
  appended-nil s = λ i. record s { messages = append-nil s.messages i }

  -- Messages that are all added, one after the other.
  appended-cons :
      (sm : SessionMessage) (ms : List SessionMessage) (s : Session)
      → appended (appended s (sm ∷ [])) ms ≡ appended s (sm ∷ ms)
  appended-cons sm ms s = λ i. record s { messages = append_assoc s.messages (sm ∷ []) ms i }

  take_into-other :
      (o : Option Text) (sm : SessionMessage) (s : Session)
      → is_system sm.message.role ≡ false
      → take_into o sm s ≡ add sm s
  unfolding take_into
  take_into-other none sm s h = rw (take_into, h)
  take_into-other (some context) sm s h = refl

  pub take_messages-context :
      (ms : List SessionMessage) (s : Session) (context : Text)
      → s.system_context ≡ some context
      → take_messages ms s ≡ appended s ms
  unfolding take_message take_into
  take_messages-context [] s context h = sym (appended-nil s)
  take_messages-context (sm ∷ ms) s context h =
      let added : take_message sm s ≡ appended s (sm ∷ []) = ap (λ o. take_into o sm s) h in
      ap (take_messages ms) added
      ∙ (take_messages-context ms (appended s (sm ∷ [])) context h ∙ appended-cons sm ms s)

  pub take_messages-no_system :
      (ms : List SessionMessage) (s : Session)
      → any (λ m. is_system m.message.role) ms ≡ false
      → take_messages ms s ≡ appended s ms
  unfolding take_message take_into
  take_messages-no_system [] s h = sym (appended-nil s)
  take_messages-no_system (sm ∷ ms) s h =
      let other : is_system sm.message.role ≡ false = ground arith in
      let added : take_message sm s ≡ appended s (sm ∷ []) =
        take_into-other s.system_context sm s other in
      ap (take_messages ms) added
      ∙ (take_messages-no_system ms (appended s (sm ∷ [])) (ground arith) ∙ appended-cons sm ms s)

  pub loaded :
      (bpe : Option (Text → ℕ)) (now later : ℕ) (id : String) (s : Session)
      → IsWritable s
      → All (IsStorable d) (context_messages d now s.system_context ++ s.messages)
      → All Prints (file_entries d now s)
      → load_from_path d bpe later id (save_to_path d now s)
        ≡ recalculate_tokens bpe
            (take_messages (context_messages d now s.system_context ++ s.messages) (headed s id))
  unfolding load_from_path save_to_path read_lines
  loaded bpe now later id s w storable prints =
      let ms = context_messages d now s.system_context ++ s.messages in
      let texts = map d.to_string (map (format_message_entry d) ms) in
      let cut =
        lines-write_entries d (file_entries d now s)
          (Prints-IsOneLine (file_entries d now s) prints) in
      let head =
        read_line-to_string (header_entry d s) (fresh later id) prints.0
        ∙ read_header-header_entry s later id w in
      ap (recalculate_tokens bpe) (
        ap (λ ls. read_lines d ls (fresh later id)) cut
        ∙ (ap (read_lines d texts) head ∙ read_lines-messages ms (headed s id) storable prints.1))

  -- The context is set, or no message is a system message, which would be taken for it.
  abbrev pub IsSettled : Session → Type 0
  IsSettled s = elim s.system_context [
    | none ↦ any (λ (m : SessionMessage). is_system m.message.role) s.messages ≡ false
    | some context ↦ Unit
  ]

  take_messages-settled :
      (now : ℕ) (id : String) (s : Session) (context : Option Text)
      → s.system_context ≡ context
      → IsSettled s
      → take_messages (context_messages d now context ++ s.messages) (headed s id)
        ≡ record (headed s id) { system_context = context; messages = s.messages }
  unfolding take_message Messages.new
  take_messages-settled now id s none e h =
      take_messages-no_system s.messages (headed s id) (rw e at h)
  take_messages-settled now id s (some context) e h =
      take_messages-context s.messages (record (headed s id) { system_context = some context })
        context refl

  -- A session that is saved and loaded again, with an identifier of the loader's choice, is the one that
  -- was saved, with its tokens recounted and not dirty: if it has a context or no system message, if
  -- its counts are u32, if serde_json and chrono read back what they printed for it, serde its usages,
  -- and if no media type of its images has a comma.
  pub load_from_path-save_to_path :
      (bpe : Option (Text → ℕ)) (now later : ℕ) (id : String) (s : Session)
      → IsWritable s
      → IsSettled s
      → All (IsStorable d) (context_messages d now s.system_context ++ s.messages)
      → All Prints (file_entries d now s)
      → load_from_path d bpe later id (save_to_path d now s)
        ≡ record (recalculate_tokens bpe s) { id = id; dirty = false }
  unfolding recalculate_tokens
  load_from_path-save_to_path bpe now later id s w settled storable prints =
      loaded bpe now later id s w storable prints
      ∙ ap (recalculate_tokens bpe) (take_messages-settled now id s s.system_context refl settled)
