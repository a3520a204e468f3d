-- ===== src/Agent/Providers/ClaudeCli.antt =====
-- src/agent/providers.rs, `ClaudeCliProvider`: the arguments of the command and its output. Running the
-- command is not modelled; a fresh identifier is an argument.
use zier_alpha.Prelude.{
  Text, List, [], ◌∷◌, ◌++◌, map, Option, none, some, Bool, true, false, codes, text_eq, any, ◌>>=◌,
  if◌then◌else◌,
}
use mathlib.Core.List.{reverse}
use zier_alpha.Agent.Messages.{Message, is_system}
use zier_alpha.Agent.Json.{Json, get, as_str}
use zier_alpha.Agent.Providers.{or_value}
use zier_alpha.Agent.Providers.OpenAi.{is_user}

abbrev one_of : Text → List Text → Bool
one_of t = any (λ n. text_eq n t)

-- `lowered` is the model in lower case.
unfoldable pub normalize_claude_model : Text → Text
normalize_claude_model lowered =
    if one_of lowered (map codes ("opus" ∷ "opus-4.5" ∷ "opus-4" ∷ "claude-opus-4-5" ∷ []))
    then codes "opus"
    else if one_of lowered
        (map codes ("sonnet" ∷ "sonnet-4.5" ∷ "sonnet-4.1" ∷ "claude-sonnet-4-5" ∷ []))
    then codes "sonnet"
    else if one_of lowered (map codes ("haiku" ∷ "haiku-3.5" ∷ "claude-haiku-3-5" ∷ []))
    then codes "haiku"
    else lowered

abbrev flag : Bool → List Text → List Text
flag true args = args
flag false args = []

abbrev when_some : (Text → List Text) → Option Text → List Text
when_some f none = []
when_some f (some t) = f t

-- `build_cli_args_with_format`
unfoldable pub build_cli_args :
    Text → Text → Option Text → Option Text → Bool → Text → Text → List Text
build_cli_args model prompt system_prompt resume_session is_new_session output_format fresh_uuid =
    (codes "-p"
      ∷ codes "--output-format"
      ∷ output_format
      ∷ codes "--dangerously-skip-permissions"
      ∷ [])
    ++ (flag (text_eq output_format (codes "stream-json"))
          (codes "--verbose" ∷ codes "--include-partial-messages" ∷ [])
        ++ (flag is_new_session (codes "--model" ∷ model ∷ [])
            ++ (flag is_new_session
                  (when_some (λ s. codes "--system-prompt" ∷ s ∷ []) system_prompt)
                ++ (elim resume_session [
                  | some id ↦ codes "--resume" ∷ id ∷ []
                  | none ↦ codes "--session-id" ∷ fresh_uuid ∷ []
                ]
                    ++ prompt ∷ []))))

-- The first message that passes a test.
abbrev find_message : (Message → Bool) → List Message → Option Message
find_message p [] = none
find_message p (m ∷ ms) = if p m then some m else find_message p ms

abbrev content_of : Option Message → Option Text
content_of none = none
content_of (some m) = some m.content

-- The last message of the user.
unfoldable pub build_prompt_from_messages : List Message → Text
build_prompt_from_messages messages =
    or_value [] (content_of (find_message (λ m. is_user m.role) (reverse messages)))

-- The first system message.
unfoldable pub extract_system_prompt : List Message → Option Text
extract_system_prompt messages = content_of (find_message (λ m. is_system m.role) messages)

abbrev or_else {ℓ} : {A : Type ℓ} → Option A → Option A → Option A
or_else none other = other
or_else (some a) other = some a

-- The text and the session of an output; `trim` is `str::trim`.
unfoldable pub parse_claude_cli_output :
    (Text → Option Json) → (Text → Text) → Text → Text × Option Text
parse_claude_cli_output from_str trim stdout = elim (from_str stdout) [
  | none ↦ (trim stdout, none)
  | some json ↦ (
    or_value (trim stdout) (
        or_else (get "result" json) (or_else (get "message" json) (get "content" json)) >>= as_str),
    or_else (get "session_id" json) (
          or_else (get "sessionId" json)
            (or_else (get "conversation_id" json) (get "conversationId" json)))
        >>= as_str,
  )
]
