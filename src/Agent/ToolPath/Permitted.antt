-- ===== src/Agent/ToolPath/Permitted.antt =====
-- src/agent/tools/path.rs: exactly which paths are permitted.
use zier_alpha.Prelude.Paths.{FilePath, normal, is_absolute, join_path, parent, file_name}
use zier_alpha.Prelude.{
  ◌≡◌, ◌⊎◌, ◌↔◌, inl, inr, refl, sym, ap, ◌∙◌, String, List, [], ◌∷◌, ◌++◌, map, Option, none, some,
  true, false, Bool-cases, Option-cases, arith,
}
use zier_alpha.Agent.ToolPath.{
  PermissionMode, read, write, SandboxPolicy, permitted, absolute_in, policy_paths,
  canonical_or_same, check_path, allowed_roots, check_path_permitted,
}
use zier_alpha.Agent.ToolPath.Roots.{
  Under, under_a_root-Under, path_there, path_top, path_written, path_new, path_nameless,
}

-- A path as it is seen from the project: one that is not absolute is inside it.
abbrev pub SeenFrom : FilePath → FilePath → FilePath → Type 0
SeenFrom project_dir path seen =
    ((is_absolute path ≡ true) × (seen ≡ path))
    ⊎ ((is_absolute path ≡ false) × (seen ≡ join_path project_dir path))

-- An entry of a list.
abbrev pub Listed : String → List String → Type 0
Listed name [] = ⊥
Listed name (n ∷ names) = (n ≡ name) ⊎ Listed name names

-- The setting lists the name for the mode.
abbrev pub IsAllowed : PermissionMode → SandboxPolicy → String → Type 0
IsAllowed read policy name = Listed name policy.allow_read
IsAllowed write policy name = Listed name policy.allow_write

module _ (canonicalize : FilePath → Option FilePath) where
  -- The path without links, if there is such a file, or the path itself.
  abbrev pub CanonicalOf : FilePath → FilePath → Type 0
  CanonicalOf path canon =
      (canonicalize path ≡ some canon) ⊎ ((canonicalize path ≡ none) × (canon ≡ path))

  -- What is compared with the roots: the canonical path of a file that exists. Of one that does not, it
  -- is its name in the canonical directory, or the path itself where there is no such directory.
  abbrev pub Compared : FilePath → FilePath → Type 0
  Compared path compared =
      (canonicalize path ≡ some compared)
      ⊎ ((canonicalize path ≡ none)
          × (((parent path ≡ none) × (compared ≡ path))
              ⊎ ((dir : FilePath) × (parent path ≡ some dir)
                  × (((canonicalize dir ≡ none) × (compared ≡ path))
                      ⊎ ((canon : FilePath) × (name : String) × (canonicalize dir ≡ some canon)
                          × (file_name path ≡ some name)
                          × (compared ≡ join_path canon (normal name ∷ [])))))))

  Compared-check_path :
      (path compared : FilePath)
      → (check_path canonicalize path ≡ some compared) ↔ Compared path compared
  Compared-check_path path compared = (to, back)
    where
      to : check_path canonicalize path ≡ some compared → Compared path compared
      to h = elim (Option-cases (canonicalize path)) [
        | inr (c, there) ↦
            let same : c ≡ compared = cc (path_there canonicalize path c there, h) in
            inl (there ∙ cc)
        | inl absent ↦ inr (
          absent,
          elim (Option-cases (parent path)) [
            | inl top ↦ inl (top, cc (path_top canonicalize path absent top, h))
            | inr (dir, up) ↦ inr (
              dir,
              up,
              elim (Option-cases (canonicalize dir)) [
                | inl gone ↦ inl (gone, cc (path_written canonicalize path dir absent up gone, h))
                | inr (canon, there) ↦ elim (Option-cases (file_name path)) [
                  | inl nameless ↦
                      absurd
                        (cc (path_nameless canonicalize path dir canon absent up there nameless, h))
                  | inr (name, last) ↦ inr (
                    canon,
                    name,
                    there,
                    last,
                    cc (path_new canonicalize path dir canon name absent up there last, h),
                  )
                ]
              ],
            )
          ],
        )
      ]

      back : Compared path compared → check_path canonicalize path ≡ some compared
      back (inl there) = path_there canonicalize path compared there
      back (inr (absent, inl (top, same))) = path_top canonicalize path absent top ∙ cc
      back (inr (absent, inr (dir, up, inl (gone, same)))) =
          path_written canonicalize path dir absent up gone ∙ cc
      back (inr (absent, inr (dir, up, inr (canon, name, there, last, same)))) =
          path_new canonicalize path dir canon name absent up there last ∙ cc

  CanonicalOf-canonical_or_same :
      (path canon : FilePath)
      → (canonical_or_same canonicalize path ≡ canon) ↔ CanonicalOf path canon
  unfolding canonical_or_same
  CanonicalOf-canonical_or_same path canon = elim (Option-cases (canonicalize path)) [
    | inl absent ↦ (
      λ h. inr (absent, sym (rw (canonical_or_same, absent) at h)),
      elim [ inl there ↦ absurd (cc) | inr (_, same) ↦ rw (canonical_or_same, absent) (sym same) ],
    )
    | inr (c, there) ↦ (
      λ h. inl (there ∙ ap some (rw (canonical_or_same, there) at h)),
      elim [
        | inl found ↦ let same : c ≡ canon = cc (there, found) in rw (canonical_or_same, there) same
        | inr (absent, _) ↦ absurd (cc)
      ],
    )
  ]

SeenFrom-absolute_in :
    (project_dir path seen : FilePath)
    → (absolute_in project_dir path ≡ seen) ↔ SeenFrom project_dir path seen
unfolding absolute_in
SeenFrom-absolute_in project_dir path seen = elim (Bool-cases (is_absolute path)) [
  | inl whole ↦ (
    λ h. inl (whole, sym (rw whole at h)),
    elim [ inl (_, same) ↦ rw whole (sym same) | inr (part, _) ↦ absurd (cc) ],
  )
  | inr part ↦ (
    λ h. inr (part, sym (rw part at h)),
    elim [ inl (whole, _) ↦ absurd (cc) | inr (_, same) ↦ rw part (sym same) ],
  )
]

Under-map :
    (g : String → FilePath) (path : FilePath) (names : List String)
    → Under path (map g names)
      ↔ ((name : String) × (rest : FilePath) × Listed name names × (path ≡ g name ++ rest))
Under-map g path [] = (λ h. absurd h, λ (_, _, h, _). absurd h)
Under-map g path (n ∷ names) = (
  elim [
    | inl (rest, same) ↦ (n, rest, inl refl, same)
    | inr h ↦
        let (name, rest, listed, same) = (Under-map g path names).0 h in
        (name, rest, inr listed, same)
  ],
  λ (name, rest, listed, same). elim listed [
    | inl here ↦ inl (rest, rw here same)
    | inr later ↦ inr ((Under-map g path names).1 (name, rest, later, same))
  ],
)

Listed-policy_paths :
    (mode : PermissionMode) (policy : SandboxPolicy) (name : String)
    → Listed name (policy_paths mode policy) ↔ IsAllowed mode policy name
unfolding policy_paths
Listed-policy_paths read policy name = (λ h. h, λ h. h)
Listed-policy_paths write policy name = (λ h. h, λ h. h)

module _ (canonicalize : FilePath → Option FilePath) (tilde : String → FilePath)
    (policy : SandboxPolicy) (workspace project_dir : FilePath) (mode : PermissionMode) where
  -- A root is the canonical path of the workspace, of the project, or of a path that the setting for the
  -- mode lists.
  abbrev pub IsRoot : FilePath → Type 0
  IsRoot root =
      CanonicalOf canonicalize workspace root
      ⊎ (CanonicalOf canonicalize project_dir root
          ⊎ ((name : String) × (seen : FilePath) × IsAllowed mode policy name
              × SeenFrom project_dir (tilde name) seen
              × CanonicalOf canonicalize seen root))

  Under-allowed_roots :
      (path : FilePath)
      → Under path (allowed_roots canonicalize tilde policy workspace project_dir mode)
        ↔ ((root rest : FilePath) × IsRoot root × (path ≡ root ++ rest))
  unfolding allowed_roots
  Under-allowed_roots path = (to, back)
    where
      canon : FilePath → FilePath
      canon p = canonical_or_same canonicalize p

      listed : String → FilePath
      listed name = canonical_or_same canonicalize (absolute_in project_dir (tilde name))

      to :
          Under path (allowed_roots canonicalize tilde policy workspace project_dir mode)
          → (root rest : FilePath) × IsRoot root × (path ≡ root ++ rest)
      to (inl (rest, same)) =
          (_, rest, inl ((CanonicalOf-canonical_or_same canonicalize workspace _).0 refl), same)
      to (inr (inl (rest, same))) = (
        _,
        rest,
        inr (inl ((CanonicalOf-canonical_or_same canonicalize project_dir _).0 refl)),
        same,
      )
      to (inr (inr h)) =
          let (name, rest, known, same) = (Under-map listed path (policy_paths mode policy)).0 h in
          (
            listed name,
            rest,
            inr (
                inr (
                  name,
                  absolute_in project_dir (tilde name),
                  (Listed-policy_paths mode policy name).0 known,
                  (SeenFrom-absolute_in project_dir (tilde name) _).0 refl,
                  (CanonicalOf-canonical_or_same canonicalize _ _).0 refl,
                )),
            same,
          )

      back :
          ((root rest : FilePath) × IsRoot root × (path ≡ root ++ rest))
          → Under path (allowed_roots canonicalize tilde policy workspace project_dir mode)
      back (root, rest, inl h, same) =
          inl (rest, rw ((CanonicalOf-canonical_or_same canonicalize workspace root).1 h) same)
      back (root, rest, inr (inl h), same) =
          inr (
            inl (rest, rw ((CanonicalOf-canonical_or_same canonicalize project_dir root).1 h) same))
      back (root, rest, inr (inr (name, seen, known, from, h)), same) =
          let there : listed name ≡ root =
            ap canon ((SeenFrom-absolute_in project_dir (tilde name) seen).1 from)
            ∙ (CanonicalOf-canonical_or_same canonicalize seen root).1 h in
          inr (
            inr (
              (Under-map listed path (policy_paths mode policy)).1
                (name, rest, (Listed-policy_paths mode policy name).1 known, rw there same)))

  -- A path is permitted exactly if what is compared for it is a root or inside one, component by
  -- component. Compared is, of a file that exists, its canonical path, without links; of one that does
  -- not, its name in the canonical directory, or the path as it is written where there is no such
  -- directory. A root is the canonical path of the workspace, of the project, or of a path that the
  -- setting for reading, or for writing, lists, as it is written where it does not exist.
  pub check_path_permitted_iff :
      (path : FilePath)
      → (check_path_permitted canonicalize tilde path policy workspace project_dir mode ≡ permitted)
        ↔ ((seen compared root rest : FilePath) × SeenFrom project_dir path seen
            × Compared canonicalize seen compared
            × IsRoot root
            × (compared ≡ root ++ rest))
  unfolding check_path_permitted
  check_path_permitted_iff path = (to, back)
    where
      seen_path : FilePath
      seen_path = absolute_in project_dir path

      to :
          check_path_permitted canonicalize tilde path policy workspace project_dir mode ≡ permitted
          → (seen compared root rest : FilePath) × SeenFrom project_dir path seen
            × Compared canonicalize seen compared
            × IsRoot root
            × (compared ≡ root ++ rest)
      to h = elim (Option-cases (check_path canonicalize (absolute_in project_dir path))) [
        | inl nothing ↦ absurd (ground arith)
        | inr (compared, checked) ↦
            let under =
              (under_a_root-Under compared _).0 (rw (check_path_permitted, checked) at h) in
            let (root, rest, is_root, same) = (Under-allowed_roots compared).0 under in
            (
              absolute_in project_dir path,
              compared,
              root,
              rest,
              (SeenFrom-absolute_in project_dir path _).0 refl,
              (Compared-check_path canonicalize _ compared).0 checked,
              is_root,
              same,
            )
      ]

      back :
          ((seen compared root rest : FilePath) × SeenFrom project_dir path seen
            × Compared canonicalize seen compared
            × IsRoot root
            × (compared ≡ root ++ rest))
          → check_path_permitted canonicalize tilde path policy workspace project_dir mode
            ≡ permitted
      back (seen, compared, root, rest, from, means, is_root, same) =
          let there = (SeenFrom-absolute_in project_dir path seen).1 from in
          let checked = (Compared-check_path canonicalize seen compared).1 means in
          rw (check_path_permitted, there, checked)
            ((under_a_root-Under compared _).1
              ((Under-allowed_roots compared).1 (root, rest, is_root, same)))
