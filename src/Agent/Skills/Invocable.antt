-- ===== src/Agent/Skills/Invocable.antt =====
-- src/agent/skills.rs: which skills are ready, and which can be invoked.
use zier_alpha.Memory.Chunks.{lines}
use zier_alpha.Prelude.{
  ◌≡◌, ◌⊎◌, refl, ap, Text, List, [], ◌∷◌, ◌++◌, none, some, Bool, true, false, ◌&&◌, ◌||◌, not,
  is_empty, any, all, keep, arith, Bool-cases, inl, inr,
}
use zier_alpha.Agent.Skills.{
  SkillRequirements, SkillSource, Skill, Machine, is_ready, can_invoke, fenced, parse_frontmatter,
  check_eligibility, load_skill, names_skill, find_skill,
}

is_empty-keep : (p : Text → Bool) (xs : List Text) → is_empty (keep (λ x. not (p x)) xs) ≡ all p xs
is_empty-keep p [] = refl
is_empty-keep p (x ∷ xs) = ground (arith, is_empty-keep p xs)

-- A skill's requirements are met exactly if all of its binaries are there, one of its alternative
-- binaries if it has any, and all of its environment variables.
pub is_ready-check_eligibility :
    (has_binary has_var : Text → Bool) (r : SkillRequirements)
    → is_ready (check_eligibility has_binary has_var r) ≡ (
        all has_binary r.bins
        && ((is_empty r.any_bins || any has_binary r.any_bins) && all has_var r.env))
unfolding check_eligibility
is_ready-check_eligibility has_binary has_var r =
    ground (arith, is_empty-keep has_binary r.bins, is_empty-keep has_var r.env)

-- A skill whose file has no frontmatter between dashes cannot be invoked by a slash command, whatever the
-- machine has.
pub can_invoke-load_skill :
    (d : Machine) (text path dir_name : Text) (source : SkillSource)
    → fenced (lines text) ≡ none
    → can_invoke (load_skill d text path dir_name source) ≡ false
unfolding can_invoke load_skill parse_frontmatter
can_invoke-load_skill d text path dir_name source h =
    rw (can_invoke, load_skill, parse_frontmatter, h)

-- A skill that a command stands for.
abbrev pub answers : Machine → Text → Skill → Bool
answers d cmd s = can_invoke s && names_skill d cmd s

-- What the loop over the skills finds: nothing if no skill can be invoked by the command, and otherwise
-- the first one that can.
pub find_skill_lem :
    (d : Machine) (cmd args : Text) (skills : List Skill)
    → ((any (answers d cmd) skills ≡ false) × (find_skill d cmd args skills ≡ none))
      ⊎ ((before : List Skill) × (s : Skill) × (after : List Skill) × (skills ≡ before ++ s ∷ after)
          × (any (answers d cmd) before ≡ false)
          × (answers d cmd s ≡ true)
          × (find_skill d cmd args skills
              ≡ some (record { skill_name = s.name; args = args; dispatch = s.command_dispatch })))
unfolding find_skill
find_skill_lem d cmd args [] = inl (refl, refl)
find_skill_lem d cmd args (s ∷ ss) = elim (Bool-cases (answers d cmd s)) [
  | inl here ↦ inr ([], s, ss, refl, refl, here, rw (find_skill, here))
  | inr other ↦ elim (find_skill_lem d cmd args ss) [
    | inl (never, nothing) ↦ inl (rw (other) never, rw (find_skill, other, nothing))
    | inr (before, m, after, parts, earlier, here, found) ↦ inr (
      s ∷ before,
      m,
      after,
      ap (◌∷◌ s) parts,
      rw (other) earlier,
      here,
      rw (find_skill, other, found),
    )
  ]
]
