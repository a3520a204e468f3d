-- ===== src/Scripting/Safety.antt =====
-- src/scripting/safety.rs: the commands that a script may run.
-- Parameters: `canonicalize`, which fails for what is not there, and the two regular expressions.
-- A path is displayed by `display`.
pub mod Allowed
use zier_alpha.Prelude.Paths.{FilePath, is_absolute, join_path, starts_with_path, root_dir, normal}
use zier_alpha.Prelude.{
  String, Text, List, [], ◌∷◌, ◌++◌, map, Option, none, some, Bool, true, false, not, ◌&&◌, ◌||◌,
  if◌then◌else◌, codes, contains, text_eq, join,
}

pub data CommandSafety : Type 0 where
  allowed : CommandSafety
  soft_block require_approval hard_block : Text → CommandSafety

pub record SafetyPolicy : Type 0 where
  pub project_dir : FilePath
  pub workspace_dir : FilePath
  pub allow_shell_chaining : Bool
  pub allow_global_cwd : Bool

unfoldable pub new : FilePath → FilePath → SafetyPolicy
new project_dir workspace_dir = record {
  project_dir = project_dir;
  workspace_dir = workspace_dir;
  allow_shell_chaining = false;
  allow_global_cwd = false;
}

unfoldable pub with_shell_chaining : Bool → SafetyPolicy → SafetyPolicy
with_shell_chaining allow policy = record policy { allow_shell_chaining = allow }

unfoldable pub with_global_cwd : Bool → SafetyPolicy → SafetyPolicy
with_global_cwd allow policy = record policy { allow_global_cwd = allow }

unfoldable pub dangerous_chars : List String
dangerous_chars = "&&" ∷ "||" ∷ ";" ∷ "|" ∷ "`" ∷ []

-- The inner loop: the first of the strings that the argument contains.
unfoldable pub chained_by : List String → Text → Option String
chained_by [] arg = none
chained_by (c ∷ cs) arg = if contains (codes c) arg then some c else chained_by cs arg

-- The outer loop over the arguments.
unfoldable pub find_chaining : List Text → Option String
find_chaining [] = none
find_chaining (arg ∷ args) = elim (chained_by dangerous_chars arg) [
  | some c ↦ some c
  | none ↦ find_chaining args
]

unfoldable pub chaining : SafetyPolicy → List Text → Option String
chaining policy cmd = if policy.allow_shell_chaining then none else find_chaining cmd

abbrev pub full_command : List Text → Text
full_command = join (32 ∷ [])

-- `cmd[0] == "tmux"`, of a command that is not empty.
unfoldable pub is_tmux : List Text → Bool
is_tmux [] = false
is_tmux (program ∷ args) = text_eq program (codes "tmux")

unfoldable pub is_dangerous_payload : Text → Bool
is_dangerous_payload command =
    contains (codes "cat /etc/shadow") command || contains (codes "sudo") command

module _ (canonicalize : FilePath → Option FilePath) where
  unfoldable pub canonical_or_same : FilePath → FilePath
  canonical_or_same path = elim (canonicalize path) [ some c ↦ c | none ↦ path ]

  -- Whether the working directory lies under one of the four directories.
  unfoldable pub is_confined : SafetyPolicy → FilePath → Bool
  is_confined policy path =
      let abs_cwd = if is_absolute path then path else join_path policy.project_dir path in
      let cwd = canonical_or_same abs_cwd in
      starts_with_path cwd (canonical_or_same policy.project_dir)
      || (starts_with_path cwd (canonical_or_same policy.workspace_dir)
          || (starts_with_path cwd (root_dir ∷ normal "tmp" ∷ [])
              || starts_with_path cwd (root_dir ∷ normal "var" ∷ normal "tmp" ∷ [])))

  unfoldable pub cwd_allowed : SafetyPolicy → Option FilePath → Bool
  cwd_allowed policy none = true
  cwd_allowed policy (some path) = if policy.allow_global_cwd then true else is_confined policy path

abbrev outside : (FilePath → Text) → Option FilePath → Text
outside display none = []
outside display (some path) =
    codes "CWD confinement violation: " ++ (display path ++ codes " is outside project/workspace")

module _ (hard_block_regex approval_regex : Text → Bool) where
  -- The checks on the whole command, after those on its arguments.
  unfoldable pub check_text : List Text → CommandSafety
  check_text cmd =
      let command = full_command cmd in
      if hard_block_regex command
      then hard_block (codes "Destructive command detected (rm -rf root, mkfs, dd, fork bomb)")
      else if approval_regex command
      then require_approval (codes "Command requires approval: " ++ command)
      else if contains (codes "grep -r /") command
      then soft_block (codes "Recursive grep on root detected. Please scope to project dir.")
      else if is_tmux cmd && is_dangerous_payload command
      then hard_block (codes "Dangerous tmux payload detected")
      else allowed

module _ (canonicalize : FilePath → Option FilePath) (display : FilePath → Text)
    (hard_block_regex approval_regex : Text → Bool) where
  -- `none` is the error of an empty command.
  unfoldable pub check_command : SafetyPolicy → List Text → Option FilePath → Option CommandSafety
  check_command policy [] cwd = none
  check_command policy (program ∷ args) cwd =
      if cwd_allowed canonicalize policy cwd
      then elim (chaining policy (program ∷ args)) [
        | some c ↦ some (
            hard_block (
              codes "Shell chaining/injection detected ('"
              ++ (codes c ++ codes "') and allow_shell_chaining is false")))
        | none ↦ some (check_text hard_block_regex approval_regex (program ∷ args))
      ]
      else some (hard_block (outside display cwd))
