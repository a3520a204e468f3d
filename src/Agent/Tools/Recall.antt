-- ===== src/Agent/Tools/Recall.antt =====
-- src/agent/tools.rs: `memory_search`, with and without the index, and `memory_get`.
pub mod Results
use zier_alpha.Memory.Chunks.{lines}
use zier_alpha.Prelude.Paths.{FilePath, join_path, normal}
use zier_alpha.Prelude.PathText.{path_of}
use zier_alpha.Prelude.{
  ℕ, suc, ◌+◌, ◌-◌, min, Text, List, [], ◌∷◌, ◌++◌, map, none, some, Bool, true, false, ◌||◌, codes,
  join, decimal, byte_len, length, take, ltb, leb, nat_eq, contains, starts_with, text_eq, is_empty,
  if◌then◌else◌,
}
use zier_alpha.Agent.Json.{Json, index, as_u64}
use zier_alpha.Agent.Tools.{
  Machine, MemoryFile, Ended, ok, err, panic, ◌>>=◌, parse_arguments, read_text, required,
  or_default,
}
use zier_alpha.Agent.Tools.Files.{usize_add, select_lines}

abbrev pub result_line : Text → ℕ → Text → Text
result_line label i line = label ++ (codes ":" ++ (decimal (i + 1) ++ (codes ": " ++ line)))

abbrev pub no_results : Text
no_results = codes "No results found"

module _ {ℓ} {W : Type ℓ} (m : Machine W) where
  -- The loop over the lines of a file, from the one at `i`, with the results so far.
  unfoldable pub grep_lines : Text → Text → ℕ → ℕ → List Text → List Text → List Text
  unfolding contains
  grep_lines label query limit i [] results = results
  grep_lines label query limit i (line ∷ rest) results =
      let found = results ++ result_line label i line ∷ [] in
      let without = grep_lines label query limit (i + 1) rest results in
      let onward = grep_lines label query limit (i + 1) rest found in
      if contains (m.to_lowercase query) (m.to_lowercase line)
      then (if leb limit (length found) then found else onward)
      else without

  -- One file of the directory `memory`: only those named `.md` that can be read.
  unfoldable pub grep_file : Text → ℕ → MemoryFile → List Text → List Text
  unfolding grep_lines
  grep_file query limit f results = elim f.is_md [
    | false ↦ results
    | true ↦ elim f.content [
      | none ↦ results
      | some t ↦ grep_lines (codes "memory/" ++ f.name) query limit 0 (lines t) results
    ]
  ]

  -- The loop over the files of the directory `memory`.
  unfoldable pub grep_files : Text → ℕ → List MemoryFile → List Text → List Text
  unfolding grep_file
  grep_files query limit [] results = results
  grep_files query limit (f ∷ files) results =
      let onward = grep_files query limit files (grep_file query limit f results) in
      if leb limit (length results) then results else onward

  -- The results from MEMORY.md.
  unfoldable pub grep_memory_file : FilePath → Text → ℕ → W → List Text
  unfolding grep_lines
  grep_memory_file memory_file query limit w = elim (m.exists w memory_file) [
    | false ↦ []
    | true ↦ elim (m.read_to_string w memory_file) [
      | none ↦ []
      | some t ↦ grep_lines (codes "MEMORY.md") query limit 0 (lines t) []
    ]
  ]

  unfoldable pub grep_memory : FilePath → Text → ℕ → W → List Text
  unfolding grep_files grep_memory_file
  grep_memory workspace query limit w =
      let first = grep_memory_file (join_path workspace (normal "MEMORY.md" ∷ [])) query limit w in
      let memory_dir = join_path workspace (normal "memory" ∷ []) in
      if m.exists w memory_dir
      then grep_files query limit (m.read_dir w memory_dir) first
      else first

  unfoldable pub memory_search : FilePath → Text → W → Ended Text
  unfolding grep_memory parse_arguments required
  memory_search workspace arguments w = do
    args ← parse_arguments m arguments
    query ← required "query" args
    let results = grep_memory workspace query (or_default 5 (as_u64 (index "limit" args))) w in
        ok (if is_empty results then no_results else join (10 ∷ []) results)

-- A chunk that the index found; its score is written with three digits.
pub record Found : Type 0 where
  pub file : Text
  pub line_start : ℕ
  pub line_end : ℕ
  pub content : Text
  pub score : Text

-- `replace('\n', " ")`
abbrev without_newlines : Text → Text
without_newlines = map (λ c. if nat_eq c 10 then 32 else c)

unfoldable pub found_text : ℕ → Found → Text
found_text i chunk =
    let preview = without_newlines (take 200 chunk.content) in
    let dots = if ltb 200 (byte_len chunk.content) then codes "..." else [] in
    join [] (
      decimal (i + 1)
      ∷ codes ". "
      ∷ chunk.file
      ∷ codes " (lines "
      ∷ decimal chunk.line_start
      ∷ codes "-"
      ∷ decimal chunk.line_end
      ∷ codes ", score: "
      ∷ chunk.score
      ∷ codes ")\n   "
      ∷ preview
      ∷ dots
      ∷ [])

unfoldable pub found_texts : ℕ → List Found → List Text
unfolding found_text
found_texts i [] = []
found_texts i (chunk ∷ rest) = found_text i chunk ∷ found_texts (i + 1) rest

module _ {ℓ} {W : Type ℓ} (m : Machine W) where
  -- `MemorySearchToolWithIndex`; `search` is the memory manager's.
  unfoldable pub memory_search_with_index : (Text → ℕ → Ended (List Found)) → Text → Ended Text
  unfolding found_texts parse_arguments required
  memory_search_with_index search arguments = do
    args ← parse_arguments m arguments
    query ← required "query" args
    results ← search query (or_default 5 (as_u64 (index "limit" args)))
    ok (if is_empty results then no_results else join (10 ∷ 10 ∷ []) (found_texts 0 results))

  -- `MemoryGetTool::resolve_path`
  unfoldable pub memory_path : FilePath → Text → FilePath
  memory_path workspace path =
      if starts_with (codes "memory/") path
        || text_eq path (codes "MEMORY.md")
        || text_eq path (codes "HEARTBEAT.md")
      then join_path workspace (path_of path)
      else path_of (m.tilde path)

abbrev pub past_end : ℕ → ℕ → Text
past_end from total =
    codes "Line "
    ++ (decimal from ++ (codes " is past end of file (" ++ (decimal total ++ codes " lines)")))

abbrev pub snippet_header : Text → ℕ → ℕ → ℕ → Text
snippet_header path start end total = join [] (
    codes "# "
    ∷ path
    ∷ codes " (lines "
    ∷ decimal (start + 1)
    ∷ codes "-"
    ∷ decimal end
    ∷ codes " of "
    ∷ decimal total
    ∷ codes ")\n"
    ∷ [])

-- The answer of `memory_get` for the content of the file.
unfoldable pub snippet : Text → ℕ → ℕ → Text → Ended Text
unfolding select_lines
snippet path from lines_count content =
    let all = lines content in
    let total_lines = length all in
    let start = min (from - 1) total_lines in
    let end = min (usize_add start lines_count) total_lines in
    if leb total_lines start then ok (past_end from total_lines) else (do
      selected ← select_lines start end all
      ok (snippet_header path start end total_lines ++ join (10 ∷ []) selected))

-- `args["from"].as_u64().unwrap_or(1).max(1)`
abbrev pub first_line : Json → ℕ
first_line args = let n = or_default 1 (as_u64 (index "from" args)) in if leb 1 n then n else 1

module _ {ℓ} {W : Type ℓ} (m : Machine W) where
  unfoldable pub memory_get : FilePath → Text → W → Ended Text
  unfolding memory_path snippet parse_arguments required read_text
  memory_get workspace arguments w = do
    args ← parse_arguments m arguments
    path ← required "path" args
    let resolved_path = memory_path m workspace path
    if m.exists w resolved_path
        then (do
          content ← read_text m resolved_path w
          snippet path (first_line args) (or_default 50 (as_u64 (index "lines" args))) content)
        else ok (codes "File not found: " ++ path)
