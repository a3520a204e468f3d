-- ===== src/Agent/Skills.antt =====
-- src/agent/skills.rs: skills from SKILL.md files, their eligibility, and the slash commands. What the
-- file system, `which`, the environment, serde_yaml and two Unicode tables say are parameters; the
-- directories' entries come as a list, a file that cannot be read as `none`.
pub mod Invocable
use mathlib.Core.List.{reverse}
use zier_alpha.Memory.Chunks.{lines}
use zier_alpha.Prelude.{
  ℕ, ◌+◌, Text, List, [], ◌∷◌, ◌++◌, map, Option, none, some, Bool, true, false, ◌&&◌, ◌||◌, not,
  ltb, nat_eq, is_empty, any, keep, take, drop, codes, is_whitespace, join, text_eq, starts_with,
  ascii_lower, if◌then◌else◌,
}

pub record SkillRequirements : Type 0 where
  pub bins : List Text
  pub any_bins : List Text
  pub env : List Text

abbrev pub no_requirements : SkillRequirements
no_requirements = record { bins = []; any_bins = []; env = [] }

pub record SkillMetadata : Type 0 where
  pub emoji : Option Text
  pub always : Bool
  pub requires : SkillRequirements

pub record SkillMetadataWrapper : Type 0 where
  pub openclaw : Option SkillMetadata
  pub emoji : Option Text
  pub requires : Option SkillRequirements

pub record SkillFrontmatter : Type 0 where
  pub name : Option Text
  pub description : Option Text
  pub user_invocable : Bool
  pub disable_model_invocation : Bool
  pub command_dispatch : Option Text
  pub command_tool : Option Text
  pub metadata : Option SkillMetadataWrapper

-- The derived `Default`, in which a `bool` is false.
abbrev pub default_frontmatter : SkillFrontmatter
default_frontmatter = record {
  name = none;
  description = none;
  user_invocable = false;
  disable_model_invocation = false;
  command_dispatch = none;
  command_tool = none;
  metadata = none;
}

pub data SkillSource : Type 0 where
  workspace managed bundled : SkillSource

pub data SkillEligibility : Type 0 where
  ready : SkillEligibility
  missing_bins missing_env missing_any_bins : List Text → SkillEligibility

abbrev pub is_ready : SkillEligibility → Bool
is_ready ready = true
is_ready _ = false

-- The kind of a dispatch is always "tool".
pub record CommandDispatch : Type 0 where
  pub tool_name : Text

pub record Skill : Type 0 where
  pub name : Text
  pub command_name : Text
  pub path : Text
  pub description : Text
  pub emoji : Option Text
  pub source : SkillSource
  pub user_invocable : Bool
  pub disable_model_invocation : Bool
  pub command_dispatch : Option CommandDispatch
  pub requires : SkillRequirements
  pub eligibility : SkillEligibility

unfoldable pub include_in_prompt : Skill → Bool
include_in_prompt s = not s.disable_model_invocation && is_ready s.eligibility

unfoldable pub can_invoke : Skill → Bool
can_invoke s = s.user_invocable && is_ready s.eligibility

unfoldable pub trim_start : (ℕ → Bool) → Text → Text
trim_start p [] = []
trim_start p (c ∷ t) = let rest = trim_start p t in if p c then rest else c ∷ t

-- `trim_matches`
unfoldable pub trim_matches : (ℕ → Bool) → Text → Text
unfolding trim_start
trim_matches p t = reverse (trim_start p (reverse (trim_start p t)))

abbrev pub trim : Text → Text
trim = trim_matches is_whitespace

abbrev pub option_or {ℓ} : {A : Type ℓ} → A → Option A → A
option_or a none = a
option_or a (some b) = b

abbrev pub dashes : Text
dashes = codes "---"

-- The lines up to the first that is `---`, and those after it.
unfoldable pub split_at_dashes : List Text → Option (List Text × List Text)
split_at_dashes [] = none
split_at_dashes (l ∷ ls) =
    let rest = split_at_dashes ls in
    if text_eq (trim l) dashes
    then some ([], ls)
    else elim rest [ none ↦ none | some (a, b) ↦ some (l ∷ a, b) ]

-- The YAML between the dashes, and the body.
unfoldable pub fenced : List Text → Option (Text × Text)
unfolding split_at_dashes
fenced [] = none
fenced (first ∷ ls) =
    if text_eq (trim first) dashes
    then elim (split_at_dashes ls) [
      | none ↦ none
      | some (yaml, body) ↦ some (join (10 ∷ []) yaml, join (10 ∷ []) body)
    ]
    else none

unfoldable pub parse_frontmatter : (Text → Option SkillFrontmatter) → Text → SkillFrontmatter × Text
unfolding fenced
parse_frontmatter from_yaml text = elim (fenced (lines text)) [
  | none ↦ (default_frontmatter, text)
  | some (yaml, body) ↦ elim (from_yaml yaml) [
    | none ↦ (default_frontmatter, text)
    | some fm ↦ (fm, body)
  ]
]

unfoldable pub description_line : List Text → Text
unfolding trim_matches
description_line [] = []
description_line (l ∷ ls) =
    let rest = description_line ls in
    if is_empty (trim l) || starts_with (codes "#") (trim l) then rest else take 100 (trim l)

unfoldable pub extract_description_from_body : Text → Text
unfolding description_line
extract_description_from_body body = description_line (lines body)

unfoldable pub sanitize_command_name : (ℕ → Bool) → Text → Text
unfolding trim_matches
sanitize_command_name is_alphanumeric name = take 32 (
    trim_matches (λ c. nat_eq c 45)
      (map (λ c. if is_alphanumeric c then ascii_lower c else 45) name))

unfoldable pub check_eligibility :
    (Text → Bool) → (Text → Bool) → SkillRequirements → SkillEligibility
check_eligibility has_binary has_var requires =
    let bins = keep (λ b. not (has_binary b)) requires.bins in
    let vars = keep (λ v. not (has_var v)) requires.env in
    if not (is_empty bins)
    then missing_bins bins
    else if not (is_empty requires.any_bins) && not (any has_binary requires.any_bins)
    then missing_any_bins requires.any_bins
    else if not (is_empty vars)
    then missing_env vars
    else ready

-- The emoji, the requirements and whether they are passed over.
unfoldable pub read_metadata : Option SkillMetadataWrapper → Option Text × SkillRequirements × Bool
read_metadata none = (none, no_requirements, false)
read_metadata (some meta) = elim meta.openclaw [
  | some oc ↦ (oc.emoji, oc.requires, oc.always)
  | none ↦ (meta.emoji, option_or no_requirements meta.requires, false)
]

unfoldable pub dispatch_of : SkillFrontmatter → Option CommandDispatch
dispatch_of fm = elim fm.command_dispatch [
  | none ↦ none
  | some kind ↦
      if text_eq kind (codes "tool")
      then (elim fm.command_tool [
        | none ↦ none
        | some tool_name ↦ some (record { tool_name = tool_name })
      ])
      else none
]

-- What the machine says.
pub record Machine : Type 0 where
  pub from_yaml : Text → Option SkillFrontmatter
  pub is_alphanumeric : ℕ → Bool
  pub to_lowercase : Text → Text
  pub has_binary : Text → Bool
  pub has_var : Text → Bool

module _ (d : Machine) where
  -- `load_skill` of a file's text.
  unfoldable pub load_skill : Text → Text → Text → SkillSource → Skill
  unfolding parse_frontmatter sanitize_command_name extract_description_from_body check_eligibility
      read_metadata dispatch_of
  load_skill text path dir_name source =
      let (fm, body) = parse_frontmatter d.from_yaml text in
      let name = option_or dir_name fm.name in
      let (emoji, requires, always) = read_metadata fm.metadata in
      record {
        name = name;
        command_name = sanitize_command_name d.is_alphanumeric name;
        path = path;
        description = option_or (extract_description_from_body body) fm.description;
        emoji = emoji;
        source = source;
        user_invocable = fm.user_invocable;
        disable_model_invocation = fm.disable_model_invocation;
        command_dispatch = dispatch_of fm;
        requires = requires;
        eligibility = if always then ready else check_eligibility d.has_binary d.has_var requires;
      }

  -- The directories that have a SKILL.md: the text if it can be read, the path and the directory's name.
  unfoldable pub load_skills_from_dir : List (Option Text × Text × Text) → SkillSource → List Skill
  unfolding load_skill
  load_skills_from_dir [] source = []
  load_skills_from_dir ((none, path, dir_name) ∷ entries) source =
      load_skills_from_dir entries source
  load_skills_from_dir ((some text, path, dir_name) ∷ entries) source =
      load_skill text path dir_name source ∷ load_skills_from_dir entries source

  -- Put into the map by its name.
  unfoldable pub insert_skill : Skill → List Skill → List Skill
  insert_skill s [] = s ∷ []
  insert_skill s (o ∷ os) = if text_eq o.name s.name then s ∷ os else o ∷ insert_skill s os

  unfoldable pub insert_skills : List Skill → List Skill → List Skill
  unfolding insert_skill
  insert_skills [] os = os
  insert_skills (s ∷ ss) os = insert_skills ss (insert_skill s os)

  unfoldable pub text_less : Text → Text → Bool
  text_less s [] = false
  text_less [] (d ∷ t) = true
  text_less (c ∷ s) (d ∷ t) = ltb c d || (nat_eq c d && text_less s t)

  unfoldable pub insert_by_name : Skill → List Skill → List Skill
  unfolding text_less
  insert_by_name s [] = s ∷ []
  insert_by_name s (o ∷ os) =
      if text_less o.name s.name then o ∷ insert_by_name s os else s ∷ o ∷ os

  unfoldable pub sort_by_name : List Skill → List Skill
  unfolding insert_by_name
  sort_by_name [] = []
  sort_by_name (s ∷ ss) = insert_by_name s (sort_by_name ss)

  -- The skills of the workspace take the place of managed ones with the same name.
  unfoldable pub load_skills :
      List (Option Text × Text × Text) → List (Option Text × Text × Text) → List Skill
  unfolding load_skills_from_dir insert_skills sort_by_name
  load_skills managed_dir workspace_dir = sort_by_name (
      insert_skills (load_skills_from_dir workspace_dir workspace)
        (insert_skills (load_skills_from_dir managed_dir managed) []))

  abbrev hyphenated : Text → Text
  hyphenated = map (λ c. if nat_eq c 95 then 45 else c)

  -- `split_once(char::is_whitespace)`
  unfoldable pub split_at_space : Text → Option (Text × Text)
  split_at_space [] = none
  split_at_space (c ∷ t) =
      let rest = split_at_space t in
      if is_whitespace c
      then some ([], t)
      else elim rest [ none ↦ none | some (a, b) ↦ some (c ∷ a, b) ]

  pub record SkillInvocation : Type 0 where
    pub skill_name : Text
    pub args : Text
    pub dispatch : Option CommandDispatch

  abbrev pub names_skill : Text → Skill → Bool
  names_skill cmd s =
      text_eq cmd (hyphenated s.command_name) || text_eq cmd (hyphenated (d.to_lowercase s.name))

  -- The loop over the skills, for a command that is normalized.
  unfoldable pub find_skill : Text → Text → List Skill → Option SkillInvocation
  unfolding can_invoke
  find_skill cmd args [] = none
  find_skill cmd args (s ∷ ss) =
      let rest = find_skill cmd args ss in
      if can_invoke s && names_skill cmd s
      then some (record { skill_name = s.name; args = args; dispatch = s.command_dispatch })
      else rest

  unfoldable pub parse_skill_command : Text → List Skill → Option SkillInvocation
  unfolding split_at_space find_skill trim_matches
  parse_skill_command input skills =
      let trimmed = trim input in
      let without_slash = drop 1 trimmed in
      if starts_with (codes "/") trimmed
      then (elim (split_at_space without_slash) [
        | some (c, a) ↦ find_skill (hyphenated (d.to_lowercase (trim c))) (trim a) skills
        | none ↦ find_skill (hyphenated (d.to_lowercase (trim without_slash))) [] skills
      ])
      else none
