-- ===== src/Agent/Tools/Commands.antt =====
-- src/agent/tools.rs: `bash`, `web_fetch` and the short text that stands for a call's arguments. Running
-- a command and fetching a URL are parameters.
use zier_alpha.Prelude.Paths.{FilePath}
use zier_alpha.Prelude.PathText.{slice_to}
use zier_alpha.Prelude.{
  ℕ, String, Text, [], ◌∷◌, ◌++◌, Option, none, some, ◌||◌, codes, decimal, byte_len, ltb, is_empty,
  ◌==◌, if◌then◌else◌,
}
use zier_alpha.Agent.Json.{Json, get, index, as_str, as_u64}
use zier_alpha.Agent.Tools.{
  Machine, ToolContext, overlay, mount, Ended, ok, err, panic, timed_out, request_failed, ◌>>=◌,
  parse_arguments, required, or_default,
}

-- What comes of a command: its output, which is UTF-8 by `from_utf8_lossy`, and its exit code.
pub data CommandEnd : Type 0 where
  expired not_started : CommandEnd
  finished : Text → Text → Option ℕ → CommandEnd

abbrev exit_code : Option ℕ → Text
exit_code none = codes "-1"
exit_code (some n) = decimal n

abbrev with_stderr : Text → Text → Text
with_stderr stdout stderr =
    if is_empty stderr
    then stdout
    else if is_empty stdout
    then stderr
    else stdout ++ (codes "\n\nSTDERR:\n" ++ stderr)

unfoldable pub command_text : Text → Text → Option ℕ → Text
command_text stdout stderr code =
    let result = with_stderr stdout stderr in
    if is_empty result then codes "Command completed with exit code: " ++ exit_code code else result

unfoldable pub command_answer : ℕ → CommandEnd → Ended Text
unfolding command_text
command_answer timeout_ms expired = err (timed_out timeout_ms)
command_answer timeout_ms not_started = err request_failed
command_answer timeout_ms (finished stdout stderr code) = ok (command_text stdout stderr code)

abbrev pub run_dir : ToolContext → FilePath
run_dir c = elim c.strategy [ overlay ↦ c.project_dir | mount ↦ c.workspace ]

abbrev pub truncation_note : ℕ → Text
truncation_note n = codes "...\n\n[Truncated, " ++ (decimal n ++ codes " bytes total]")

-- `&body[..max_bytes]` panics inside a character.
unfoldable pub truncated_body : ℕ → Text → Ended Text
truncated_body max_bytes body =
    if ltb max_bytes (byte_len body)
    then elim (slice_to max_bytes body) [
      | none ↦ panic
      | some t ↦ ok (t ++ truncation_note (byte_len body))
    ]
    else ok body

module _ {ℓ} {W : Type ℓ} (m : Machine W) where
  unfoldable pub bash_arguments : ℕ → Text → Ended (Text × ℕ)
  unfolding parse_arguments required
  bash_arguments default_timeout_ms arguments = do
    args ← parse_arguments m arguments
    command ← required "command" args
    ok (command, or_default default_timeout_ms (as_u64 (index "timeout_ms" args)))

  -- `run` is given the directory, the time limit and the command.
  unfoldable pub bash :
      (FilePath → ℕ → Text → W → CommandEnd × W) → ToolContext → ℕ → Text → W → Ended Text × W
  unfolding bash_arguments command_answer
  bash run c default_timeout_ms arguments w = elim (bash_arguments default_timeout_ms arguments) [
    | ok (command, timeout_ms) ↦
        let (end, w') = run (run_dir c) timeout_ms command w in (command_answer timeout_ms end, w')
    | err e ↦ (err e, w)
    | panic ↦ (panic, w)
  ]

  -- `fetch` gives the status and the body.
  unfoldable pub web_fetch : (Text → Option (Text × Text)) → ℕ → Text → Ended Text
  unfolding truncated_body parse_arguments required
  web_fetch fetch max_bytes arguments = do
    args ← parse_arguments m arguments
    url ← required "url" args
    (status, body) ← elim (fetch url) [ none ↦ err request_failed | some r ↦ ok r ]
    truncated ← truncated_body max_bytes body
    ok (codes "Status: " ++ (status ++ (codes "\n\n" ++ truncated)))

-- The cases of `extract_tool_detail` on the arguments. `&s[..57]` panics inside a character.
abbrev first_of_two : Option Json → Option Json → Option Json
first_of_two none v = v
first_of_two (some v) _ = some v

abbrev text_of : Option Json → Option Text
text_of none = none
text_of (some v) = as_str v

unfoldable pub shortened : Text → Ended Text
shortened s =
    if ltb 60 (byte_len s)
    then elim (slice_to 57 s) [ none ↦ panic | some t ↦ ok (t ++ codes "...") ]
    else ok s

abbrev in_quotes : Text → Text
in_quotes s = 34 ∷ (s ++ 34 ∷ [])

abbrev optional : (Text → Ended Text) → Option Text → Ended (Option Text)
optional f none = ok none
optional f (some t) = do u ← f t; ok (some u)

unfoldable pub extract_tool_detail : (Text → Option Json) → String → Text → Ended (Option Text)
unfolding shortened
extract_tool_detail from_json tool_name arguments = elim (from_json arguments) [
  | none ↦ ok none
  | some args ↦
      if tool_name == "edit_file" || tool_name == "write_file" || tool_name == "read_file"
      then ok (text_of (first_of_two (get "path" args) (get "file_path" args)))
      else if tool_name == "bash"
      then optional shortened (text_of (get "command" args))
      else if tool_name == "memory_search"
      then optional (λ s. ok (in_quotes s)) (text_of (get "query" args))
      else if tool_name == "web_fetch"
      then ok (text_of (get "url" args))
      else ok none
]
