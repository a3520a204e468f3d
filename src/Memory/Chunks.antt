-- ===== src/Memory/Chunks.antt =====
-- src/memory/index.rs, `chunk_text`: a file is cut into overlapping runs of lines for the index.
-- An `i32` is its bit pattern. The sizes stay far below the bound of `usize`, which is not modelled.
pub mod Overlap
pub mod Cover
use mathlib.Core.List.{reverse}
use zier_alpha.Prelude.{
  ℕ, zero, suc, ◌+◌, ◌-◌, ◌*◌, Text, List, [], ◌∷◌, ◌++◌, Bool, true, false, ◌||◌, length, drop,
  is_empty, sum_of, byte_len, join, ltb, leb, nat_eq, if◌then◌else◌,
}
use Prim.Native.Nat.{◌%◌, ◌^◌}

pub record ChunkInfo : Type 0 where
  pub line_start : ℕ
  pub line_end : ℕ
  pub content : Text

-- `as i32`
abbrev pub as_i32 : ℕ → ℕ
as_i32 n = n % 2 ^ 32

-- A line without the carriage return at its end.
unfoldable pub strip_cr : Text → Text
strip_cr [] = []
strip_cr (c ∷ []) = if nat_eq c 13 then [] else c ∷ []
strip_cr (c ∷ d ∷ t) = c ∷ strip_cr (d ∷ t)

-- `str::lines`: cut at each newline, which also ends the last line; the first argument is the line
-- so far.
unfoldable pub lines_from : Text → Text → List Text
lines_from line [] = if is_empty line then [] else line ∷ []
lines_from line (c ∷ t) =
    let cut = lines_from [] t in
    let longer = lines_from (line ++ c ∷ []) t in
    if nat_eq c 10 then strip_cr line ∷ cut else longer

unfoldable pub lines : Text → List Text
unfolding lines_from strip_cr
lines = lines_from []

-- The loop over the lines of a chunk from its last: the index at which the overlap is long enough,
-- or the number of lines if it never is. A line's index is the number of lines before it.
unfoldable pub overlap_scan : ℕ → ℕ → ℕ → List Text → ℕ
overlap_scan overlap_chars count overlap_len [] = count
overlap_scan overlap_chars count overlap_len (line ∷ before) =
    let next = overlap_len + byte_len line + 1 in
    let rest = overlap_scan overlap_chars count next before in
    if leb overlap_chars next then length before else rest

unfoldable pub overlap_start : ℕ → List Text → ℕ
unfolding overlap_scan
overlap_start overlap_chars chunk_lines =
    overlap_scan overlap_chars (length chunk_lines) 0 (reverse chunk_lines)

-- The chunk of the lines from `start_line` to the one at index `i`.
abbrev pub chunk : ℕ → ℕ → List Text → ChunkInfo
chunk start_line i chunk_lines = record {
  line_start = as_i32 (start_line + 1);
  line_end = as_i32 (i + 1);
  content = join (10 ∷ []) chunk_lines;
}

-- `count` is the number of all lines; the last argument holds those from index `i` on.
unfoldable pub chunk_loop : ℕ → ℕ → ℕ → ℕ → ℕ → ℕ → List Text → List Text → List ChunkInfo
chunk_loop target_chars overlap_chars count i start_line current_chars chunk_lines [] = []
chunk_loop target_chars overlap_chars count i start_line current_chars chunk_lines (line ∷ rest) =
    let lines' = chunk_lines ++ line ∷ [] in
    let chars = current_chars + (byte_len line + 1) in
    let start = overlap_start overlap_chars lines' in
    let kept = drop start lines' in
    let on = chunk_loop target_chars overlap_chars count (i + 1) start_line chars lines' rest in
    let overlapping =
      chunk_loop target_chars overlap_chars count (i + 1) (start_line + start)
        (sum_of (λ l. byte_len l + 1) kept) kept rest in
    let afresh = chunk_loop target_chars overlap_chars count (i + 1) (i + 1) 0 [] rest in
    let next = if ltb start (length lines') then overlapping else afresh in
    if leb target_chars chars || nat_eq i (count - 1) then chunk start_line i lines' ∷ next else on

unfoldable pub chunk_text : Text → ℕ → ℕ → List ChunkInfo
chunk_text text target_tokens overlap_tokens =
    let all = lines text in
    if is_empty all
    then []
    else chunk_loop (target_tokens * 4) (overlap_tokens * 4) (length all) 0 0 0 [] all
