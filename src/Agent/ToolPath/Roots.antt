-- ===== src/Agent/ToolPath/Roots.antt =====
-- src/agent/tools/path.rs: which paths are permitted, and when the check panics.
use zier_alpha.Prelude.Paths.{
  FilePath, normal, join_path, parent, file_name, starts_with_path, starts_with_path-append,
  append-starts_with_path,
}
use zier_alpha.Prelude.{
  ◌≡◌, sym, ◌∙◌, String, List, [], ◌∷◌, ◌++◌, Option, none, some, true, arith, ◌⊎◌, ◌≢◌, inl, inr,
  Bool-cases, Option-cases, ◌↔◌,
}
use zier_alpha.Agent.ToolPath.{
  PermissionMode, SandboxPolicy, Verdict, permitted, panicked, absolute_in, under_a_root,
  check_path, allowed_roots, check_path_permitted,
}

-- Some root is a prefix of the path, component by component.
abbrev pub Under : FilePath → List FilePath → Type 0
Under path [] = ⊥
Under path (root ∷ roots) = ((rest : FilePath) × (path ≡ root ++ rest)) ⊎ Under path roots

pub under_a_root-Under :
    (path : FilePath) (roots : List FilePath)
    → (under_a_root path roots ≡ permitted) ↔ Under path roots
unfolding under_a_root
under_a_root-Under path [] = (λ h. cc, λ h. absurd h)
under_a_root-Under path (root ∷ roots) = elim (Bool-cases (starts_with_path path root)) [
  | inl under ↦ (λ h. inl (starts_with_path-append path root under), λ h. rw under)
  | inr apart ↦ (
    λ h. inr ((under_a_root-Under path roots).0 (rw apart at h)),
    elim [
      | inl (rest, e) ↦
          let whole : starts_with_path path root ≡ true =
            rw e (append-starts_with_path root rest) in
          absurd (cc)
      | inr h ↦ rw apart ((under_a_root-Under path roots).1 h)
    ],
  )
]

under_a_root-ne-panicked :
    (path : FilePath) (roots : List FilePath) → under_a_root path roots ≡ panicked → ⊥
unfolding under_a_root
under_a_root-ne-panicked path [] h = cc
under_a_root-ne-panicked path (root ∷ roots) h = elim (Bool-cases (starts_with_path path root)) [
  | inl under ↦ absurd (ground arith)
  | inr apart ↦ under_a_root-ne-panicked path roots (rw apart at h)
]

-- The ways through `check_path`.
module _ (canonicalize : FilePath → Option FilePath) (path : FilePath) where
  pub path_there :
      (c : FilePath) → canonicalize path ≡ some c → check_path canonicalize path ≡ some c
  unfolding check_path
  path_there c there = ground arith

  pub path_top :
      canonicalize path ≡ none → parent path ≡ none → check_path canonicalize path ≡ some path
  unfolding check_path
  path_top absent top = ground arith

  module _ (dir : FilePath) where
    pub path_written :
        canonicalize path ≡ none
        → parent path ≡ some dir
        → canonicalize dir ≡ none
        → check_path canonicalize path ≡ some path
    unfolding check_path
    path_written absent up gone = ground arith

    pub path_new :
        (canon : FilePath) (name : String)
        → canonicalize path ≡ none
        → parent path ≡ some dir
        → canonicalize dir ≡ some canon
        → file_name path ≡ some name
        → check_path canonicalize path ≡ some (join_path canon (normal name ∷ []))
    unfolding check_path
    path_new canon name absent up there last = ground arith

    pub path_nameless :
        (canon : FilePath)
        → canonicalize path ≡ none
        → parent path ≡ some dir
        → canonicalize dir ≡ some canon
        → file_name path ≡ none
        → check_path canonicalize path ≡ none
    unfolding check_path
    path_nameless canon absent up there nameless = ground arith

module _ (canonicalize : FilePath → Option FilePath) (tilde : String → FilePath)
    (policy : SandboxPolicy) (workspace project_dir : FilePath) (mode : PermissionMode)
    (path : FilePath) where
  abbrev verdict : Verdict
  verdict = check_path_permitted canonicalize tilde path policy workspace project_dir mode

  abbrev roots : List FilePath
  roots = allowed_roots canonicalize tilde policy workspace project_dir mode

  checked-verdict :
      (c : FilePath)
      → check_path canonicalize (absolute_in project_dir path) ≡ some c
      → verdict ≡ under_a_root c roots
  unfolding check_path_permitted
  checked-verdict c h = rw (check_path_permitted, h)

  not-panicked :
      (c : FilePath)
      → check_path canonicalize (absolute_in project_dir path) ≡ some c
      → verdict ≢ panicked
  not-panicked c h e = under_a_root-ne-panicked c roots (sym (checked-verdict c h) ∙ e)

  -- The check panics exactly for a path that does not exist, whose directory does, and whose last
  -- component is not a name.
  pub check_path_permitted-panicked : (verdict ≡ panicked) ↔ (
      (dir : FilePath) × (canon : FilePath) × (canonicalize (absolute_in project_dir path) ≡ none)
      × (parent (absolute_in project_dir path) ≡ some dir)
      × (canonicalize dir ≡ some canon)
      × (file_name (absolute_in project_dir path) ≡ none))
  unfolding check_path_permitted
  check_path_permitted-panicked = (
    λ h. elim (Option-cases (canonicalize (absolute_in project_dir path))) [
      | inr (c, there) ↦
          absurd (not-panicked c (path_there canonicalize (absolute_in project_dir path) c there) h)
      | inl absent ↦ elim (Option-cases (parent (absolute_in project_dir path))) [
        | inl top ↦ absurd (
            not-panicked (absolute_in project_dir path)
              (path_top canonicalize (absolute_in project_dir path) absent top) h)
        | inr (dir, up) ↦ elim (Option-cases (canonicalize dir)) [
          | inl gone ↦ absurd (
              not-panicked (absolute_in project_dir path)
                (path_written canonicalize (absolute_in project_dir path) dir absent up gone) h)
          | inr (canon, there) ↦ elim (Option-cases (file_name (absolute_in project_dir path))) [
            | inl nameless ↦ (dir, canon, absent, up, there, nameless)
            | inr (name, last) ↦ absurd (
                not-panicked (join_path canon (normal name ∷ []))
                  (path_new canonicalize (absolute_in project_dir path) dir canon name absent up
                    there last)
                  h)
          ]
        ]
      ]
    ],
    λ (dir, canon, absent, up, there, nameless). rw (
      check_path_permitted,
      path_nameless canonicalize (absolute_in project_dir path) dir canon absent up there nameless,
    ),
  )
