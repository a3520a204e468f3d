-- ===== src/Examples/Guards.antt =====
-- src/agent/tools/path.rs and src/scripting/safety.rs in a small file system.
use zier_alpha.Prelude.Paths.{
  FilePath, root_dir, parent_dir, normal, component_eq, starts_with_path, is_absolute, join_path,
  parent,
}
use zier_alpha.Prelude.{
  ◌≡◌, ◌↔◌, refl, String, Text, List, [], ◌∷◌, ◌++◌, Option, none, some, Bool, true, false, ◌&&◌,
  if◌then◌else◌, codes, contains, starts_with,
}
use zier_alpha.Agent.ToolPath.{
  read, write, SandboxPolicy, Verdict, permitted, panicked, absolute_in, check_path_permitted,
  allowed_roots,
}
use zier_alpha.Agent.ToolPath.Permitted.{SeenFrom, Compared, IsRoot, check_path_permitted_iff}
use zier_alpha.Scripting.Safety.{
  SafetyPolicy, CommandSafety, check_command, is_tmux, is_dangerous_payload, full_command,
}

abbrev work : FilePath
work = root_dir ∷ normal "work" ∷ []

abbrev in_work : FilePath → FilePath
in_work rest = root_dir ∷ normal "work" ∷ rest

abbrev same : FilePath → FilePath → Bool
same p q = starts_with_path p q && starts_with_path q p

-- There is a directory `/work`, in which `link` leads to `/etc`.
abbrev canonicalize : FilePath → Option FilePath
canonicalize path =
    if same path work
    then some work
    else if same path (in_work (normal "link" ∷ []))
    then some (root_dir ∷ normal "etc" ∷ [])
    else none

abbrev tilde : String → FilePath
tilde name = normal name ∷ []

abbrev policy : SandboxPolicy
policy = record { allow_read = []; allow_write = [] }

check_path_permitted_iff_example :
    (check_path_permitted canonicalize tilde (normal "link" ∷ []) policy work work read ≡ permitted)
    ↔ ((seen compared root rest : FilePath) × SeenFrom work (normal "link" ∷ []) seen
        × Compared canonicalize seen compared
        × IsRoot canonicalize tilde policy work work read root
        × (compared ≡ root ++ rest))
check_path_permitted_iff_example =
    check_path_permitted_iff canonicalize tilde policy work work read (normal "link" ∷ [])

-- `nope/../../etc/passwd`, which leads out of `/work` once `nope` has been made.
abbrev escape : FilePath
escape = normal "nope" ∷ parent_dir ∷ parent_dir ∷ normal "etc" ∷ normal "passwd" ∷ []

escape_is_permitted :
    check_path_permitted canonicalize tilde escape policy work work write ≡ permitted
unfolding check_path_permitted zier_alpha.Agent.ToolPath.check_path starts_with_path absolute_in
    is_absolute join_path component_eq parent zier_alpha.Agent.ToolPath.under_a_root allowed_roots
escape_is_permitted = refl

abbrev safety : SafetyPolicy
safety = record {
  project_dir = work;
  workspace_dir = work;
  allow_shell_chaining = false;
  allow_global_cwd = false;
}

abbrev display : FilePath → Text
display path = codes "path"

-- Stands in for the two regular expressions.
abbrev mentions : String → Text → Bool
mentions word command = contains (codes word) command

abbrev check : List Text → Option CommandSafety
check cmd =
    check_command canonicalize display (mentions "mkfs.") (mentions "nmap") safety cmd (some work)

abbrev listing : List Text
listing = codes "ls" ∷ codes "-l" ∷ []

abbrev hidden_sudo : List Text
hidden_sudo = codes "tmux" ∷ codes "sudo grep -r /" ∷ []

hidden_sudo_is_dangerous :
    (is_tmux hidden_sudo && is_dangerous_payload (full_command hidden_sudo)) ≡ true
unfolding is_tmux zier_alpha.Prelude.text_eq is_dangerous_payload contains zier_alpha.Prelude.join
hidden_sudo_is_dangerous = refl
