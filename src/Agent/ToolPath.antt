-- ===== src/Agent/ToolPath.antt =====
-- src/agent/tools/path.rs: the paths that a tool may read or write.
-- Parameters: `canonicalize`, which follows the links of the file system and fails for what is not
-- there, and `tilde`, the path that `shellexpand::tilde` gives for a setting.
pub mod Roots
pub mod Permitted
use zier_alpha.Prelude.Paths.{
  FilePath, is_absolute, join_path, parent, file_name, starts_with_path, normal,
}
use zier_alpha.Prelude.{String, List, [], ◌∷◌, map, Option, none, some, Bool, if◌then◌else◌}

pub data PermissionMode : Type 0 where
  read write : PermissionMode

pub record SandboxPolicy : Type 0 where
  pub allow_read : List String
  pub allow_write : List String

-- `Ok(())`, the error, and the panic of `file_name().unwrap()`.
pub data Verdict : Type 0 where
  permitted denied panicked : Verdict

unfoldable pub absolute_in : FilePath → FilePath → FilePath
absolute_in project_dir path = if is_absolute path then path else join_path project_dir path

unfoldable pub policy_paths : PermissionMode → SandboxPolicy → List String
policy_paths read policy = policy.allow_read
policy_paths write policy = policy.allow_write

-- The loop over the allowed roots.
unfoldable pub under_a_root : FilePath → List FilePath → Verdict
under_a_root path [] = denied
under_a_root path (root ∷ roots) =
    if starts_with_path path root then permitted else under_a_root path roots

module _ (canonicalize : FilePath → Option FilePath) where
  -- The canonical path, or the path as it is written.
  unfoldable pub canonical_or_same : FilePath → FilePath
  canonical_or_same path = elim (canonicalize path) [ some c ↦ c | none ↦ path ]

  -- The path that is compared with the roots; `none` is the panic.
  unfoldable pub check_path : FilePath → Option FilePath
  check_path abs_path = elim (canonicalize abs_path) [
    | some canon ↦ some canon
    | none ↦ elim (parent abs_path) [
      | none ↦ some abs_path
      | some dir ↦ elim (canonicalize dir) [
        | none ↦ some abs_path
        | some canon_parent ↦ elim (file_name abs_path) [
          | some name ↦ some (join_path canon_parent (normal name ∷ []))
          | none ↦ none
        ]
      ]
    ]
  ]

module _ (canonicalize : FilePath → Option FilePath) (tilde : String → FilePath) where
  unfoldable pub allowed_roots :
      SandboxPolicy → FilePath → FilePath → PermissionMode → List FilePath
  unfolding canonical_or_same
  allowed_roots policy workspace project_dir mode =
      canonical_or_same canonicalize workspace
      ∷ canonical_or_same canonicalize project_dir
      ∷ map (λ p. canonical_or_same canonicalize (absolute_in project_dir (tilde p)))
          (policy_paths mode policy)

  unfoldable pub check_path_permitted :
      FilePath → SandboxPolicy → FilePath → FilePath → PermissionMode → Verdict
  check_path_permitted path policy workspace project_dir mode =
      elim (check_path canonicalize (absolute_in project_dir path)) [
        | none ↦ panicked
        | some checked ↦ under_a_root checked (allowed_roots policy workspace project_dir mode)
      ]
