-- ===== src/Agent/Tools.antt =====
-- src/agent/tools.rs: the built-in tools. What the operating system does is a `Machine` over the states
-- `W` of the world: its file system, the home directory, JSON and Unicode tables. A tool's call reads
-- the world and may change it.
pub mod Files
pub mod Recall
pub mod Commands
pub mod Registry
use zier_alpha.Prelude.Paths.{FilePath, is_absolute, join_path}
use zier_alpha.Prelude.PathText.{path_of}
use zier_alpha.Prelude.{
  ℕ, ◌≡◌, refl, String, Text, List, [], ◌∷◌, Option, none, some, Bool, true, false, ◌||◌, ◌&&◌,
  codes, text_eq, drop, nat_eq, starts_with, if◌then◌else◌,
}
use zier_alpha.Agent.Json.{Json, index, as_str, boolean}
use zier_alpha.Agent.ToolPath.{
  PermissionMode, SandboxPolicy, Verdict, permitted, denied, panicked, check_path_permitted,
}

-- The errors that the tools give, by what went wrong.
pub data ToolError : Type 0 where
  invalid_json disk_full io_error old_string_not_found request_failed : ToolError
  missing : String → ToolError
  access_denied : FilePath → ToolError
  timed_out : ℕ → ToolError

-- What a call comes to.
pub data Ended {ℓ} (A : Type ℓ) : Type ℓ where
  ok : A → Ended A
  err : ToolError → Ended A
  panic : Ended A

infixl 5 ◌>>=◌ ◌>>◌
abbrev pub ◌>>=◌ {ℓ κ} : {A : Type ℓ} {B : Type κ} → Ended A → (A → Ended B) → Ended B
ok a >>= f = f a
err e >>= f = err e
panic >>= f = panic

abbrev pub ◌>>◌ {ℓ} : {B : Type ℓ} → Ended (Unit {0}) → Ended B → Ended B
m >> k = m >>= λ _. k

-- Inversion of a step that was taken.
pub >>=-eq-ok {ℓ κ} :
    {A : Type ℓ} {B : Type κ} (e : Ended A) (f : A → Ended B) {b : B}
    → (e >>= f) ≡ ok b
    → (a : A) × (e ≡ ok a) × (f a ≡ ok b)
>>=-eq-ok (ok a) f h = (a, refl, h)
>>=-eq-ok (err x) f h = absurd (cc)
>>=-eq-ok panic f h = absurd (cc)

-- A file of the directory `memory` as the grep search meets it; `none` is a file that cannot be read.
pub record MemoryFile : Type 0 where
  pub name : Text
  pub is_md : Bool
  pub content : Option Text

pub record Machine {ℓ} (W : Type ℓ) : Type ℓ where
  pub from_json : Text → Option Json
  pub to_lowercase : Text → Text
  pub tilde : Text → Text
  pub display : FilePath → Text
  pub canonicalize : W → FilePath → Option FilePath
  pub exists : W → FilePath → Bool
  pub read_to_string : W → FilePath → Option Text
  pub read_dir : W → FilePath → List MemoryFile
  pub create_dir_all : FilePath → W → Bool × W
  pub write : FilePath → Text → W → Bool × W

pub data WorkdirStrategy : Type 0 where
  overlay mount : WorkdirStrategy

-- The fields that the file tools share.
pub record ToolContext : Type 0 where
  pub workspace : FilePath
  pub project_dir : FilePath
  pub strategy : WorkdirStrategy
  pub policy : SandboxPolicy

-- `trim_start_matches("./")` and `trim_start_matches('/')`.
unfoldable pub trim_dot_slashes : Text → Text
trim_dot_slashes [] = []
trim_dot_slashes (c ∷ []) = c ∷ []
trim_dot_slashes (c ∷ d ∷ t) = elim (nat_eq c 46 && nat_eq d 47) [
  | true ↦ trim_dot_slashes t
  | false ↦ c ∷ d ∷ t
]

unfoldable pub trim_slashes : Text → Text
trim_slashes [] = []
trim_slashes (c ∷ t) = elim (nat_eq c 47) [ true ↦ trim_slashes t | false ↦ c ∷ t ]

module _ {ℓ} {W : Type ℓ} (m : Machine W) where
  unfoldable pub is_cognitive_path : Text → Bool
  is_cognitive_path path =
      let p = m.to_lowercase path in
      text_eq p (codes "memory.md")
      || text_eq p (codes "soul.md")
      || text_eq p (codes "heartbeat.md")
      || text_eq p (codes "identity.md")
      || text_eq p (codes "user.md")
      || text_eq p (codes "agents.md")
      || text_eq p (codes "tools.md")
      || starts_with (codes "memory/") p

  -- The path of a mounted project, or one in the workspace.
  unfoldable pub mounted : FilePath → FilePath → Text → FilePath
  unfolding trim_dot_slashes trim_slashes
  mounted workspace project_dir expanded =
      let clean_path = trim_slashes (trim_dot_slashes expanded) in
      if text_eq clean_path (codes "project")
      then project_dir
      else if starts_with (codes "project/") clean_path
      then join_path project_dir (path_of (drop 8 clean_path))
      else join_path workspace (path_of expanded)

  unfoldable pub resolve_path : Text → FilePath → FilePath → WorkdirStrategy → FilePath
  unfolding is_cognitive_path mounted
  resolve_path path workspace project_dir strategy =
      let expanded = m.tilde path in
      let p = path_of expanded in
      if is_absolute p then p else elim strategy [
        | overlay ↦
            if is_cognitive_path expanded then join_path workspace p else join_path project_dir p
        | mount ↦ mounted workspace project_dir expanded
      ]

  -- `serde_json::from_str(arguments)?`
  unfoldable pub parse_arguments : Text → Ended Json
  parse_arguments arguments = elim (m.from_json arguments) [
    | none ↦ err invalid_json
    | some v ↦ ok v
  ]

  -- `check_path_permitted(..)?` in the world as it is.
  unfoldable pub verdict : ToolContext → PermissionMode → FilePath → W → Verdict
  verdict c mode path w =
      check_path_permitted (m.canonicalize w) (λ s. path_of (m.tilde (codes s))) path c.policy
        c.workspace c.project_dir mode

  unfoldable pub permit : ToolContext → PermissionMode → FilePath → W → Ended (Unit {0})
  permit c mode path w = elim (verdict c mode path w) [
    | permitted ↦ ok tt
    | denied ↦ err (access_denied path)
    | panicked ↦ panic
  ]

  -- `fs::read_to_string(path)?`
  unfoldable pub read_text : FilePath → W → Ended Text
  read_text path w = elim (m.read_to_string w path) [ none ↦ err io_error | some t ↦ ok t ]

-- `args["k"].as_str().ok_or(..)?`
unfoldable pub required : String → Json → Ended Text
required k args = elim (as_str (index k args)) [ none ↦ err (missing k) | some t ↦ ok t ]

abbrev pub as_bool : Json → Option Bool
as_bool (boolean b) = some b
as_bool _ = none

abbrev pub or_default {ℓ} : {A : Type ℓ} → A → Option A → A
or_default d none = d
or_default d (some a) = a
