-- ===== src/Agent/Session/Files/Lines.antt =====
-- The lines of a text that was written line by line.
use zier_alpha.Memory.Chunks.{lines, lines_from, strip_cr}
use zier_alpha.Prelude.{
  ℕ, ◌≡◌, refl, ap, ◌∙◌, Text, List, [], ◌∷◌, ◌++◌, append_assoc, append-nil, map, Bool, false,
  ◌||◌, any, All, nat_eq, arith, Bool-cases, inl, inr,
}
use zier_alpha.Agent.Json.{Json}
use zier_alpha.Agent.Session.Format.{Serde}
use zier_alpha.Agent.Session.Files.{write_entries}

-- A newline or a carriage return.
abbrev pub breaks : ℕ → Bool
breaks c = nat_eq c 10 || nat_eq c 13

abbrev pub IsOneLine : Text → Type 0
IsOneLine t = any breaks t ≡ false

strip_cr-IsOneLine : (t : Text) → IsOneLine t → strip_cr t ≡ t
unfolding strip_cr
strip_cr-IsOneLine [] h = refl
strip_cr-IsOneLine (c ∷ []) h = ground arith
strip_cr-IsOneLine (c ∷ e ∷ t) h = ap (◌∷◌ c) (strip_cr-IsOneLine (e ∷ t) (ground arith))

any-snoc : (t : Text) (c : ℕ) → IsOneLine t → breaks c ≡ false → IsOneLine (t ++ c ∷ [])
any-snoc [] c h k = ground arith
any-snoc (e ∷ t) c h k = ground (arith, any-snoc t c)

lines_from-append :
    (line t rest : Text)
    → IsOneLine line
    → IsOneLine t
    → lines_from line (t ++ 10 ∷ rest) ≡ (line ++ t) ∷ lines_from [] rest
unfolding lines_from
lines_from-append line [] rest h k = rw (strip_cr-IsOneLine line h, append-nil line)
lines_from-append line (c ∷ t) rest h k = elim (Bool-cases (nat_eq c 10)) [
  | inl e ↦ absurd (ground arith)
  | inr e ↦
      let go : lines_from (line ++ c ∷ []) (t ++ 10 ∷ rest)
          ≡ ((line ++ c ∷ []) ++ t) ∷ lines_from [] rest =
        lines_from-append (line ++ c ∷ []) t rest (any-snoc line c h (ground arith))
          (ground arith) in
      rw (lines_from, e) (go ∙ ap (λ u. u ∷ lines_from [] rest) (append_assoc line (c ∷ []) t))
]

pub lines-write_entries :
    (d : Serde) (vs : List Json)
    → All (λ v. IsOneLine (d.to_string v)) vs
    → lines (write_entries d vs) ≡ map d.to_string vs
unfolding lines write_entries lines_from
lines-write_entries d [] h = refl
lines-write_entries d (v ∷ vs) (now, later) =
    lines_from-append [] (d.to_string v) (write_entries d vs) refl now
    ∙ ap (◌∷◌ (d.to_string v)) (lines-write_entries d vs later)
