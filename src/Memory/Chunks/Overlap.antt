-- ===== src/Memory/Chunks/Overlap.antt =====
-- src/memory/index.rs: how much of a chunk the next one repeats.
use mathlib.Core.List.{reverse, reverse-append}
use zier_alpha.Prelude.{
  ℕ, ◌+◌, ◌≤◌, ◌≡◌, refl, ap, ◌∙◌, Text, List, [], ◌∷◌, ◌++◌, arith, length, length-append,
  byte_len,
}
use mathlib.Core.List.{reverse-cons}
use zier_alpha.Memory.Chunks.{overlap_scan, overlap_start}

pub length-reverse {ℓ} : {A : Type ℓ} (xs : List A) → length (reverse xs) ≡ length xs
length-reverse [] = refl
length-reverse (x ∷ xs) =
    omega
      (arith, ap length (reverse-cons x xs), length-append (reverse xs) (x ∷ []), length-reverse xs)

-- Where the last line of a chunk is alone long enough for the overlap, the next chunk starts with
-- just that line.
pub overlap_start-last :
    (overlap_chars : ℕ) (run : List Text) (line : Text)
    → overlap_chars ≤ byte_len line + 1
    → overlap_start overlap_chars (run ++ line ∷ []) ≡ length run
unfolding overlap_start overlap_scan
overlap_start-last overlap_chars run line h =
    ap (overlap_scan overlap_chars (length (run ++ line ∷ [])) 0) (reverse-append run (line ∷ []))
    ∙ ground (arith, length-reverse run)

overlap_scan-le :
    (overlap_chars count acc : ℕ) (lines : List Text)
    → length lines ≤ count
    → overlap_scan overlap_chars count acc lines ≤ count
unfolding overlap_scan
overlap_scan-le overlap_chars count acc [] h = omega arith
overlap_scan-le overlap_chars count acc (line ∷ before) h =
    ground (arith, overlap_scan-le overlap_chars count (acc + byte_len line + 1) before)
