-- ===== src/Agent/Tools/Files.antt =====
-- src/agent/tools.rs: `read_file`, `write_file` and `edit_file`. A call that is refused leaves the
-- world alone, and what it does to the world otherwise is up to the `Machine`.
pub mod Confined
pub mod Pages
use Prim.Native.Nat.{◌%◌, ◌^◌}
use zier_alpha.Memory.Chunks.{lines}
use zier_alpha.Prelude.Paths.{FilePath, parent}
use zier_alpha.Prelude.Replace.{matches, replace, replace_first}
use zier_alpha.Prelude.{
  ℕ, zero, suc, ◌+◌, ◌-◌, min, Text, List, [], ◌∷◌, ◌++◌, Option, none, some, Bool, true, false,
  codes, join, decimal, byte_len, length, take, drop, ltb, contains, if◌then◌else◌,
}
use zier_alpha.Agent.Json.{Json, index, as_u64}
use zier_alpha.Agent.ToolPath.{PermissionMode, read, write}
use zier_alpha.Agent.Tools.{
  Machine, ToolContext, ToolError, disk_full, io_error, old_string_not_found, Ended, ok, err, panic,
  ◌>>=◌, ◌>>◌, resolve_path, parse_arguments, permit, read_text, required, as_bool, or_default,
}

-- `usize` arithmetic wraps.
abbrev pub usize_add : ℕ → ℕ → ℕ
usize_add a b = (a + b) % 2 ^ 64

abbrev spaces : ℕ → Text
spaces zero = []
spaces (suc n) = 32 ∷ spaces n

-- `{:4}` of a number.
unfoldable pub padded : ℕ → Text
padded n = let t = decimal n in spaces (4 - length t) ++ t

-- The lines with their numbers; the first one's is one more than the argument.
unfoldable pub numbered : ℕ → List Text → List Text
unfolding padded
numbered n [] = []
numbered n (line ∷ rest) = (padded (n + 1) ++ 9 ∷ line) ∷ numbered (n + 1) rest

-- `&lines[start..end]`, which panics if the end lies before the start, with its numbers.
unfoldable pub select_lines : ℕ → ℕ → List Text → Ended (List Text)
unfolding numbered
select_lines start end all =
    if ltb end start then panic else ok (numbered start (take (end - start) (drop start all)))

-- The lines that `read_file` answers with.
unfoldable pub page : ℕ → Option ℕ → List Text → Ended (List Text)
unfolding select_lines
page offset limit all =
    let total_lines = length all in
    let start = min offset total_lines in
    let end : ℕ = elim limit [
      | some l ↦ min (usize_add start l) total_lines
      | none ↦ total_lines
    ] in
    select_lines start end all

module _ {ℓ} {W : Type ℓ} (m : Machine W) (c : ToolContext) where
  unfoldable pub read_file : Text → W → Ended Text
  unfolding page parse_arguments required resolve_path permit read_text
  read_file arguments w = do
    args ← parse_arguments m arguments
    path ← required "path" args
    let resolved_path = resolve_path m path c.workspace c.project_dir c.strategy
    permit m c read resolved_path w
    content ← read_text m resolved_path w
    selected ←
        page (or_default 0 (as_u64 (index "offset" args))) (as_u64 (index "limit" args))
          (lines content)
    ok (join (10 ∷ []) selected)

  -- What is to be written, and where: the part of `write_file` before the first change.
  unfoldable pub write_request : Bool → Text → W → Ended (FilePath × Text)
  unfolding parse_arguments required resolve_path permit
  write_request true arguments w = err disk_full
  write_request false arguments w = do
    args ← parse_arguments m arguments
    path ← required "path" args
    content ← required "content" args
    let resolved_path = resolve_path m path c.workspace c.project_dir c.strategy
    permit m c write resolved_path w
    ok (resolved_path, content)

  -- `fs::write(path, content)?`
  unfoldable pub write_text : FilePath → Text → Text → W → Ended Text × W
  write_text path content answer w =
      let (done, w') = m.write path content w in
      if done then (ok answer, w') else (err io_error, w')

  -- `fs::create_dir_all(parent)?`, then the file.
  unfoldable pub write_below : FilePath → Text → Text → W → Ended Text × W
  unfolding write_text
  write_below path content answer w = elim (parent path) [
    | none ↦ write_text path content answer w
    | some dir ↦
        let (made, w') = m.create_dir_all dir w in
        if made then write_text path content answer w' else (err io_error, w')
  ]

  abbrev pub written : FilePath → Text → Text
  written path content =
      codes "Successfully wrote "
      ++ (decimal (byte_len content) ++ (codes " bytes to " ++ m.display path))

  -- The disk monitor's state is the first argument.
  unfoldable pub write_file : Bool → Text → W → Ended Text × W
  unfolding write_request write_below
  write_file degraded arguments w = elim (write_request degraded arguments w) [
    | ok (path, content) ↦ write_below path content (written path content) w
    | err e ↦ (err e, w)
    | panic ↦ (panic, w)
  ]

  -- The new content and the number of occurrences that were replaced.
  unfoldable pub edited : Bool → Text → Text → Text → Ended (Text × ℕ)
  unfolding matches replace replace_first
  edited true old_string new_string content =
      ok (replace old_string new_string content, matches old_string content)
  edited false old_string new_string content =
      if contains old_string content
      then ok (replace_first old_string new_string content, 1)
      else err old_string_not_found

  -- The permissions, the reading and the edit, once the arguments are read. Both permissions are asked
  -- for.
  unfoldable pub edit_content : FilePath → Bool → Text → Text → W → Ended (FilePath × Text × ℕ)
  unfolding permit read_text edited
  edit_content resolved_path replace_all old_string new_string w = do
    permit m c read resolved_path w
    permit m c write resolved_path w
    content ← read_text m resolved_path w
    (new_content, count) ← edited replace_all old_string new_string content
    ok (resolved_path, new_content, count)

  unfoldable pub edit_request : Bool → Text → W → Ended (FilePath × Text × ℕ)
  unfolding parse_arguments required resolve_path edit_content
  edit_request true arguments w = err disk_full
  edit_request false arguments w = do
    args ← parse_arguments m arguments
    path ← required "path" args
    old_string ← required "old_string" args
    new_string ← required "new_string" args
    let replace_all = or_default false (as_bool (index "replace_all" args))
    let resolved_path = resolve_path m path c.workspace c.project_dir c.strategy
    edit_content resolved_path replace_all old_string new_string w

  abbrev pub replaced : FilePath → ℕ → Text
  replaced path count =
      codes "Replaced " ++ (decimal count ++ (codes " occurrence(s) in " ++ m.display path))

  unfoldable pub edit_file : Bool → Text → W → Ended Text × W
  unfolding edit_request write_text
  edit_file degraded arguments w = elim (edit_request degraded arguments w) [
    | ok (path, new_content, count) ↦ write_text path new_content (replaced path count) w
    | err e ↦ (err e, w)
    | panic ↦ (panic, w)
  ]
