-- ===== src/Agent/Sanitize.antt =====
-- src/agent/sanitize.rs: untrusted text is filtered, cut to a length and put between delimiters.
-- Parameters: `replace_ci`, the regex replacement of a literal without regard to case, and the
-- detector of each suspicious pattern with its description.
pub mod Truncation
use zier_alpha.Prelude.{
  ℕ, String, Text, List, [], ◌∷◌, ◌++◌, Option, none, some, Bool, true, false, ◌||◌, codes, decimal,
  byte_len, take, leb, nat_eq, if◌then◌else◌, ◌-◌,
}

-- `STRIP_PATTERNS`; each is replaced by the same mark.
unfoldable pub strip_patterns : List String
strip_patterns =
    "<system>" ∷ "</system>" ∷ "<|system|>" ∷ "<|im_start|>system" ∷ "<|im_end|>" ∷ "<<SYS>>"
    ∷ "<</SYS>>" ∷ "[INST]" ∷ "[/INST]" ∷ "<s>" ∷ "</s>" ∷ []

abbrev pub filtered : Text
filtered = codes "[FILTERED]"

abbrev pub newline : Text
newline = 10 ∷ []

pub data MemorySource : Type 0 where
  identity user soul agents tools memory daily_log heartbeat other : MemorySource

unfoldable pub label : MemorySource → Text
label identity = codes "Identity"
label user = codes "User Info"
label soul = codes "Soul/Persona"
label agents = codes "Available Agents"
label tools = codes "Tool Notes"
label memory = codes "Long-term Memory"
label daily_log = codes "Daily Log"
label heartbeat = codes "Pending Tasks"
label other = codes "Context"

pub record SanitizeResult : Type 0 where
  pub content : Text
  pub warnings : List Text
  pub was_truncated : Bool

-- The notice after a text that was cut, with the number of bytes that are left out.
unfoldable pub notice : ℕ → Text
notice remaining =
    10
    ∷ 10
    ∷ (codes "[...truncated "
        ++ (decimal remaining ++ codes " characters. Use read_file with offset to see more.]"))

unfoldable pub truncate_with_notice : Text → ℕ → Text × Bool
truncate_with_notice content max_chars =
    if nat_eq max_chars 0 || leb (byte_len content) max_chars
    then (content, false)
    else (let truncated = take max_chars content in
        (truncated ++ notice (byte_len content - byte_len truncated), true))

unfoldable pub truncate_to : Option ℕ → Text → Text × Bool
truncate_to none content = (content, false)
truncate_to (some max) content = truncate_with_notice content max

-- An opening tag, a comment, the content and a closing tag, each on lines of their own.
unfoldable pub delimit : Text → Text → Text → Text → Text
delimit start comment content end =
    start
    ++ (newline
        ++ (codes "<!-- "
            ++ (comment ++ (codes " -->" ++ (newline ++ (content ++ (newline ++ end)))))))

unfoldable pub wrap_memory_content : Text → Text → MemorySource → Text
unfolding delimit label
wrap_memory_content file_name content source =
    delimit (codes "<memory_context>") (label source ++ (codes " (" ++ (file_name ++ codes ")")))
      content (codes "</memory_context>")

module _ (replace_ci : Text → Text → Text → Text) (suspicious : List ((Text → Bool) × Text)) where
  unfoldable pub strip : List String → Text → Text
  strip [] result = result
  strip (p ∷ ps) result = strip ps (replace_ci (codes p) filtered result)

  unfoldable pub sanitize_tool_output : Text → Text
  sanitize_tool_output output = strip strip_patterns output

  unfoldable pub detect_from : List ((Text → Bool) × Text) → Text → List Text
  detect_from [] content = []
  detect_from ((is_match, description) ∷ rest) content =
      if is_match content then description ∷ detect_from rest content else detect_from rest content

  unfoldable pub detect_suspicious_patterns : Text → List Text
  detect_suspicious_patterns content = detect_from suspicious content

  -- What `wrap_tool_output` and `wrap_external_content` share.
  unfoldable pub wrap : Text → Text → Text → Text → Option ℕ → SanitizeResult
  wrap start end comment output max_length =
      let sanitized = sanitize_tool_output output in
      let (content, was_truncated) = truncate_to max_length sanitized in
      record {
        content = delimit start comment content end;
        warnings = detect_suspicious_patterns sanitized;
        was_truncated = was_truncated;
      }

  unfoldable pub wrap_tool_output : Text → Text → Option ℕ → SanitizeResult
  unfolding wrap
  wrap_tool_output tool_name output max_length =
      wrap (codes "<tool_output>") (codes "</tool_output>") (codes "tool: " ++ tool_name) output
        max_length

  unfoldable pub wrap_external_content : Text → Text → Option ℕ → SanitizeResult
  unfolding wrap
  wrap_external_content url content max_length =
      wrap (codes "<external_content>") (codes "</external_content>") (codes "source: " ++ url)
        content max_length
