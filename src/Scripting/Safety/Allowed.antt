-- ===== src/Scripting/Safety/Allowed.antt =====
-- src/scripting/safety.rs: what a command that is allowed, or blocked, has passed.
use zier_alpha.Prelude.Paths.{FilePath}
use zier_alpha.Prelude.{
  ◌≡◌, ◌↔◌, refl, ◌∙◌, String, Text, List, [], ◌∷◌, Option, none, some, Bool, true, false, not,
  ◌||◌, arith, any, codes, contains, Bool-cases, inl, inr, is_empty,
}
use zier_alpha.Scripting.Safety.{
  CommandSafety, soft_block, SafetyPolicy, dangerous_chars, chained_by, find_chaining, chaining,
  full_command, cwd_allowed, check_text, check_command,
}

-- An argument contains one of the strings that chain commands.
abbrev pub is_chained : Text → Bool
is_chained arg = any (λ c. contains (codes c) arg) dangerous_chars

chained_by-none :
    (cs : List String) (arg : Text)
    → (chained_by cs arg ≡ none) ↔ (any (λ c. contains (codes c) arg) cs ≡ false)
unfolding chained_by
chained_by-none [] arg = (λ h. refl, λ h. refl)
chained_by-none (c ∷ cs) arg = elim (Bool-cases (contains (codes c) arg)) [
  | inl found ↦ rw found (λ h. absurd (cc), λ h. absurd (cc))
  | inr clean ↦ rw clean (chained_by-none cs arg)
]

find_chaining-none : (cmd : List Text) → (find_chaining cmd ≡ none) ↔ (any is_chained cmd ≡ false)
unfolding find_chaining
find_chaining-none [] = (λ h. refl, λ h. refl)
find_chaining-none (arg ∷ cmd) = (
  λ h. ground (arith, chained_by-none dangerous_chars arg, find_chaining-none cmd),
  λ h. ground (arith, chained_by-none dangerous_chars arg, find_chaining-none cmd),
)

module _ (canonicalize : FilePath → Option FilePath) (display : FilePath → Text)
    (hard_block_regex approval_regex : Text → Bool) (policy : SafetyPolicy)
    (cwd : Option FilePath) where
  abbrev check : List Text → Option CommandSafety
  check cmd = check_command canonicalize display hard_block_regex approval_regex policy cmd cwd

  passes :
      (cmd : List Text)
      → is_empty cmd ≡ false
      → cwd_allowed canonicalize policy cwd ≡ true
      → chaining policy cmd ≡ none
      → check cmd ≡ some (check_text hard_block_regex approval_regex cmd)
  unfolding check_command
  passes [] h at plain = absurd (cc)
  passes (program ∷ args) h at plain = ground arith

  chaining-none :
      (cmd : List Text)
      → (chaining policy cmd ≡ none)
        ↔ ((policy.allow_shell_chaining || not (any is_chained cmd)) ≡ true)
  unfolding chaining
  chaining-none cmd =
      (λ h. ground (arith, find_chaining-none cmd), λ h. ground (arith, find_chaining-none cmd))

  -- A command that passes the checks before it and searches the root gets the soft block only, even
  -- if it is tmux with a payload that by itself is a hard block.
  pub check_command_soft_block :
      (cmd : List Text)
      → is_empty cmd ≡ false
      → cwd_allowed canonicalize policy cwd ≡ true
      → (policy.allow_shell_chaining || not (any is_chained cmd)) ≡ true
      → hard_block_regex (full_command cmd) ≡ false
      → approval_regex (full_command cmd) ≡ false
      → contains (codes "grep -r /") (full_command cmd) ≡ true
      → check cmd
        ≡ some (soft_block (codes "Recursive grep on root detected. Please scope to project dir."))
  unfolding check_text
  check_command_soft_block cmd full at plain a b c =
      passes cmd full at ((chaining-none cmd).1 plain) ∙ rw (a, b, c)
