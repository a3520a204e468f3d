-- ===== src/Examples/Texts.antt =====
-- src/agent/sanitize.rs and src/memory/index.rs on short texts.
use zier_alpha.Prelude.{Text, [], ◌∷◌, codes}
use zier_alpha.Memory.Chunks.{chunk_text, lines}
use zier_alpha.Memory.Chunks.Cover.{Covers, chunk_text-Covers}

-- A letter of two bytes.
abbrev e_acute : Text
e_acute = 233 ∷ []

chunk_text-Covers_example :
    Covers (lines (codes "one\ntwo\nthree")) 0 (chunk_text (codes "one\ntwo\nthree") 1 0)
chunk_text-Covers_example = chunk_text-Covers (codes "one\ntwo\nthree") 1 0
