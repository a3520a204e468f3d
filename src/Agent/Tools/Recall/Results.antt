-- ===== src/Agent/Tools/Recall/Results.antt =====
-- src/agent/tools.rs, `MemorySearchTool`: the results that a search gives.
use zier_alpha.Memory.Chunks.{lines}
use zier_alpha.Prelude.Paths.{FilePath, join_path, normal}
use zier_alpha.Prelude.{
  ℕ, ◌+◌, ◌-◌, ◌≤◌, ◌<◌, ◌≡◌, refl, sym, ap, ◌∙◌, Text, List, [], ◌∷◌, ◌++◌, none, some, Bool, true,
  false, arith, Option, length, length-append, length-take, leb, contains, codes, decimal,
  Bool-cases, inl, inr, take, take_of_length-le, append_assoc, append-nil, zero, suc, if◌then◌else◌,
  nat_eq,
}
use zier_alpha.Agent.Tools.{Machine, MemoryFile}
use zier_alpha.Agent.Tools.Recall.{
  result_line, grep_lines, grep_file, grep_files, grep_memory_file, grep_memory,
}

take-append_le : (n : ℕ) (xs ys : List Text) → n ≤ length xs → take n (xs ++ ys) ≡ take n xs
take-append_le zero xs ys h = refl
take-append_le (suc n) [] ys h = absurd (omega arith)
take-append_le (suc n) (x ∷ xs) ys h = ap (◌∷◌ x) (take-append_le n xs ys (omega arith))

module _ {W : Type 0} (m : Machine W) (query : Text) where
  -- Every line in which the query is found, in lower case, with its label and its number. The number of
  -- the first line is the argument.
  abbrev pub hits : Text → ℕ → List Text → List Text
  hits label n [] = []
  hits label n (line ∷ rest) =
      if contains (m.to_lowercase query) (m.to_lowercase line)
      then (label ++ (codes ":" ++ (decimal n ++ (codes ": " ++ line)))) ∷ hits label (n + 1) rest
      else hits label (n + 1) rest

  abbrev pub content_hits : Text → Option Text → List Text
  content_hits label none = []
  content_hits label (some t) = hits label 1 (lines t)

  -- The lines of MEMORY.md.
  abbrev pub own_hits : FilePath → W → List Text
  own_hits workspace w =
      let path = join_path workspace (normal "MEMORY.md" ∷ []) in
      if m.exists w path then content_hits (codes "MEMORY.md") (m.read_to_string w path) else []

  abbrev pub file_hits : List MemoryFile → List Text
  file_hits [] = []
  file_hits (f ∷ files) =
      (if f.is_md then content_hits (codes "memory/" ++ f.name) f.content else [])
      ++ file_hits files

  -- The lines of the files `.md` in the directory `memory`, in its order.
  abbrev pub daily_hits : FilePath → W → List Text
  daily_hits workspace w =
      let dir = join_path workspace (normal "memory" ∷ []) in
      if m.exists w dir then file_hits (m.read_dir w dir) else []

  module _ (limit : ℕ) where
    -- The limit, or one if it is zero.
    abbrev at_most : ℕ
    at_most = limit + (1 - limit)

    nothing_added :
        (results : List Text) → length results < at_most → results ≡ take at_most (results ++ [])
    nothing_added results h =
        sym (take_of_length-le at_most results (omega arith))
        ∙ ap (take at_most) (sym (append-nil results))

    exactly :
        (xs ys : List Text)
        → length xs ≤ at_most
        → at_most ≤ length xs
        → xs ≡ take at_most (xs ++ ys)
    exactly xs ys most least =
        sym (take_of_length-le at_most xs most) ∙ sym (take-append_le at_most xs ys least)

    grep_lines-hits :
        (label : Text) (i : ℕ) (ls results : List Text)
        → length results < at_most
        → grep_lines m label query limit i ls results
          ≡ take at_most (results ++ hits label (i + 1) ls)
    unfolding grep_lines
    grep_lines-hits label i [] results h = nothing_added results h
    grep_lines-hits label i (line ∷ rest) results h =
        elim (Bool-cases (contains (m.to_lowercase query) (m.to_lowercase line))) [
          | inr absent ↦ rw absent (grep_lines-hits label (i + 1) rest results h)
          | inl here ↦
              let found = results ++ result_line label i line ∷ [] in
              let size = length-append results (result_line label i line ∷ []) in
              let split =
                append_assoc results (result_line label i line ∷ [])
                  (hits label (i + 1 + 1) rest) in
              elim (Bool-cases (leb limit (length found))) [
                | inl full ↦
                    rw (here, full)
                      (exactly found (hits label (i + 1 + 1) rest) (omega arith) (ground arith)
                        ∙ ap (take at_most) split)
                | inr room ↦
                    rw (here, room)
                      (grep_lines-hits label (i + 1) rest found (ground arith)
                        ∙ ap (take at_most) split)
              ]
        ]

    grep_memory_file-hits :
        (path : FilePath) (w : W)
        → grep_memory_file m path query limit w
          ≡ take at_most (
              if m.exists w path
              then content_hits (codes "MEMORY.md") (m.read_to_string w path)
              else [])
    unfolding grep_memory_file
    grep_memory_file-hits path w = go (m.exists w path) (m.read_to_string w path)
      where
        go :
            (there : Bool) (content : Option Text)
            → (elim there [
              | false ↦ []
              | true ↦ elim content [
                | none ↦ []
                | some t ↦ grep_lines m (codes "MEMORY.md") query limit 0 (lines t) []
              ]
            ])
              ≡ take at_most (if there then content_hits (codes "MEMORY.md") content else [])
        go false content = sym (take_of_length-le at_most [] (omega arith))
        go true none = sym (take_of_length-le at_most [] (omega arith))
        go true (some t) = grep_lines-hits (codes "MEMORY.md") 0 (lines t) [] (omega arith)

    grep_file-hits :
        (f : MemoryFile) (results : List Text)
        → length results < at_most
        → grep_file m query limit f results
          ≡ take at_most (
              results
              ++ (if f.is_md then content_hits (codes "memory/" ++ f.name) f.content else []))
    unfolding grep_file
    grep_file-hits f results h = go f.is_md f.content
      where
        go :
            (md : Bool) (content : Option Text)
            → (elim md [
              | false ↦ results
              | true ↦ elim content [
                | none ↦ results
                | some t ↦ grep_lines m (codes "memory/" ++ f.name) query limit 0 (lines t) results
              ]
            ])
              ≡ take at_most
                  (results ++ (if md then content_hits (codes "memory/" ++ f.name) content else []))
        go false content = nothing_added results h
        go true none = nothing_added results h
        go true (some t) = grep_lines-hits (codes "memory/" ++ f.name) 0 (lines t) results h

    grep_files-hits :
        (files : List MemoryFile) (found : List Text)
        → 1 ≤ limit
        → grep_files m query limit files (take at_most found)
          ≡ take at_most (found ++ file_hits files)
    unfolding grep_files
    grep_files-hits [] found h = ap (take at_most) (sym (append-nil found))
    grep_files-hits (f ∷ files) found h =
        let size = length-take at_most found in
        elim (Bool-cases (leb limit (length (take at_most found)))) [
          | inl full ↦
              rw full (sym (take-append_le at_most found (file_hits (f ∷ files)) (ground arith)))
          | inr room ↦
              let few : length found < at_most = ground arith in
              let all = take_of_length-le at_most found (omega arith) in
              let more =
                if f.is_md then content_hits (codes "memory/" ++ f.name) f.content else [] in
              rw room (
                ap (λ r. grep_files m query limit files (grep_file m query limit f r)) all
                ∙ ap (grep_files m query limit files) (grep_file-hits f found few)
                ∙ grep_files-hits files (found ++ more) h
                ∙ ap (take at_most) (append_assoc found more (file_hits files)))
        ]

  grep_files_zero :
      (files : List MemoryFile) (found : List Text) → grep_files m query 0 files found ≡ found
  unfolding grep_files
  grep_files_zero [] found = refl
  grep_files_zero (f ∷ files) found =
      let full : leb 0 (length found) ≡ true = ground arith in rw full refl

  module _ (limit : ℕ) (workspace : FilePath) (w : W) where
    grep_memory_zero :
        limit ≡ 0 → grep_memory m workspace query limit w ≡ take 1 (own_hits workspace w)
    unfolding grep_memory
    grep_memory_zero h =
        let own = grep_memory_file-hits 0 (join_path workspace (normal "MEMORY.md" ∷ [])) w in
        rw h (elim (Bool-cases (m.exists w (join_path workspace (normal "memory" ∷ [])))) [
          | inl there ↦ rw there (grep_files_zero _ _ ∙ own)
          | inr absent ↦ rw absent own
        ])

    grep_memory_some :
        1 ≤ limit
        → grep_memory m workspace query limit w
          ≡ take limit (own_hits workspace w ++ daily_hits workspace w)
    unfolding grep_memory
    grep_memory_some h =
        let own = grep_memory_file-hits limit (join_path workspace (normal "MEMORY.md" ∷ [])) w in
        let bound : at_most limit ≡ limit = omega arith in
        let dir = join_path workspace (normal "memory" ∷ []) in
        elim (Bool-cases (m.exists w dir)) [
          | inl there ↦ rw there (
              ap (grep_files m query limit (m.read_dir w dir)) own
              ∙ grep_files-hits limit (m.read_dir w dir) (own_hits workspace w) h
              ∙ ap (λ n. take n (own_hits workspace w ++ file_hits (m.read_dir w dir))) bound)
          | inr absent ↦ rw absent (
              own
              ∙ ap (λ n. take n (own_hits workspace w)) bound
              ∙ ap (take limit) (sym (append-nil (own_hits workspace w))))
        ]

  -- A search without the index gives the first lines in which the query is found, in lower case, with
  -- the label of their file and their number: those of MEMORY.md, then those of the files `.md` in
  -- `memory`, as many as the limit at most. With the limit zero it gives the first such line of MEMORY.md.
  pub grep_memory-hits :
      (limit : ℕ) (workspace : FilePath) (w : W)
      → grep_memory m workspace query limit w ≡ (
          if nat_eq limit 0
          then take 1 (own_hits workspace w)
          else take limit (own_hits workspace w ++ daily_hits workspace w))
  grep_memory-hits limit workspace w = elim (Bool-cases (nat_eq limit 0)) [
    | inl zero_limit ↦ rw zero_limit (grep_memory_zero limit workspace w (ground arith))
    | inr other ↦ rw other (grep_memory_some limit workspace w (ground arith))
  ]
