-- ===== src/Memory/Chunks/Cover.antt =====
-- src/memory/index.rs: the chunks of a text cover its lines in order and without a gap.
use zier_alpha.Prelude.{
  ℕ, ◌+◌, ◌-◌, ◌*◌, ◌≤◌, ◌<◌, ◌≡◌, refl, sym, ap, ◌∙◌, Text, List, [], ◌∷◌, ◌++◌, append_assoc,
  ◌||◌, arith, length, length-append, length-drop, drop, take, take-append-drop, length-take,
  is_empty, sum_of, byte_len, join, ltb, leb, nat_eq, Bool-cases, inl, inr,
}
use zier_alpha.Memory.Chunks.{ChunkInfo, as_i32, chunk_loop, chunk_text, lines, overlap_start}

-- The chunks run over the lines in order: each is a contiguous run of them, numbered from 1, that
-- starts at or before the line after the last chunk's end and ends after it; the last ends with the
-- last line. `done` is the number of lines up to the end of the chunk before.
abbrev pub Covers : List Text → ℕ → List ChunkInfo → Type 0
Covers all done [] = done ≡ length all
Covers all done (c ∷ cs) =
    (before : List Text) × (run : List Text) × (after : List Text) × (all
      ≡ before ++ (run ++ after))
    × (c.line_start ≡ as_i32 (length before + 1))
    × (c.line_end ≡ as_i32 (length before + length run))
    × (c.content ≡ join (10 ∷ []) run)
    × (length before ≤ done)
    × (done < length before + length run)
    × Covers all (length before + length run) cs

overlap_split :
    (before run rest : List Text) (n : ℕ)
    → before ++ (run ++ rest) ≡ (before ++ take n run) ++ (drop n run ++ rest)
overlap_split before run rest n =
    ap (λ r. before ++ (r ++ rest)) (sym (take-append-drop n run))
    ∙ ap (◌++◌ before) (append_assoc (take n run) (drop n run) rest)
    ∙ sym (append_assoc before (take n run) (drop n run ++ rest))

module _ (target_chars overlap_chars : ℕ) (all : List Text) where
  -- The lines of the current chunk follow the first `start_line` lines, and `rest` follows them.
  chunk_loop-Covers :
      (i start_line current_chars done : ℕ) (before chunk_lines rest : List Text)
      → all ≡ before ++ (chunk_lines ++ rest)
      → start_line ≡ length before
      → i ≡ length before + length chunk_lines
      → length before ≤ done
      → done ≤ i
      → (rest ≡ [] → done ≡ length all)
      → Covers all done (
          chunk_loop target_chars overlap_chars
            (length all)
            i
            start_line
            current_chars
            chunk_lines
            rest)
  unfolding chunk_loop
  chunk_loop-Covers i start_line current_chars done before chunk_lines [] split s e lo hi last =
      last refl
  chunk_loop-Covers i start_line current_chars done before chunk_lines (line ∷ rest) split s e lo hi
        last =
      let run = chunk_lines ++ line ∷ [] in
      let size : length run ≡ length chunk_lines + 1 =
        omega (arith, length-append chunk_lines (line ∷ [])) in
      let split' : all ≡ before ++ (run ++ rest) =
        split ∙ ap (◌++◌ before) (sym (append_assoc chunk_lines (line ∷ []) rest)) in
      let total : length all ≡ length before + (length run + length rest) =
        ap length split'
        ∙ length-append before (run ++ rest)
        ∙ ap (λ n. length before + n) (length-append run rest) in
      let start = overlap_start overlap_chars run in
      let end_last : rest ≡ [] → length before + length run ≡ length all =
        λ r. omega (arith, ap length r) in
      elim (Bool-cases
        (leb target_chars (current_chars + (byte_len line + 1)) || nat_eq i (length all - 1))) [
          | inl cut ↦ rw cut (
            before,
            run,
            rest,
            split',
            ap (λ n. as_i32 (n + 1)) s,
            ap as_i32 (omega arith),
            refl,
            lo,
            omega arith,
            elim (Bool-cases (ltb start (length run))) [
              | inl keeps ↦
                  let fits : start < length run = ground arith in
                  let taken = length-take start run in
                  let sizes = length-append before (take start run) in
                  rw keeps (
                    chunk_loop-Covers (i + 1) (start_line + start)
                      (sum_of (λ l. byte_len l + 1) (drop start run)) (length before + length run)
                      (before ++ take start run) (drop start run) rest
                      (split' ∙ overlap_split before run rest start) (omega arith)
                      (omega (arith, length-drop start run)) (omega arith) (omega arith) end_last)
              | inr drops ↦
                  let sizes = length-append before run in
                  rw drops (
                    chunk_loop-Covers (i + 1) (i + 1) 0 (length before + length run) (before ++ run)
                      [] rest (split' ∙ sym (append_assoc before run rest)) (omega arith)
                      (omega arith) (omega arith) (omega arith) end_last)
            ],
          )
          | inr more ↦ rw more (
              chunk_loop-Covers (i + 1) start_line (current_chars + (byte_len line + 1)) done before
                run rest split' s (omega arith) lo (omega arith)
                (λ r. let alone = ap length r in absurd (ground arith)))
        ]

-- Whatever the sizes asked for, the chunks of a text are contiguous runs of its lines, in order,
-- with no line left out: each starts at or before the line after the last one's end and ends after
-- it, and the last ends with the last line.
pub chunk_text-Covers :
    (text : Text) (target_tokens overlap_tokens : ℕ)
    → Covers (lines text) 0 (chunk_text text target_tokens overlap_tokens)
unfolding chunk_text
chunk_text-Covers text target_tokens overlap_tokens = elim (Bool-cases (is_empty (lines text))) [
  | inl none_at_all ↦ rw none_at_all (ground arith)
  | inr some_lines ↦ rw some_lines (
      chunk_loop-Covers (target_tokens * 4) (overlap_tokens * 4) (lines text) 0 0 0 0 [] []
        (lines text) refl refl (omega arith) (omega arith) (omega arith) (λ e. ground arith))
]
