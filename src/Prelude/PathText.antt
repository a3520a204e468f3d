-- ===== src/Prelude/PathText.antt =====
-- A path as it is written (`PathBuf::from` and `Path::components` on Unix), and the prefix of a text by
-- bytes (`&s[..n]`).
use zier_alpha.Prelude.Strings.{from_codes}
use zier_alpha.Prelude.Paths.{FilePath, root_dir, cur_dir, parent_dir, normal}
use zier_alpha.Prelude.Texts.{Text, text_eq, len_utf8}
use Prim.Native.Nat.{ℕ, zero, suc, ◌-◌}
use mathlib.Core.List.{List, [], ◌∷◌}
use mathlib.Core.Option.{Option, none, some}
use mathlib.Core.Bool.{◌||◌}
use zier_alpha.Prelude.Tests.{ltb, nat_eq, if◌then◌else◌}
use zier_alpha.Prelude.Lists.{is_empty}

abbrev cons_first : ℕ → List Text → List Text
cons_first c [] = (c ∷ []) ∷ []
cons_first c (p ∷ ps) = (c ∷ p) ∷ ps

-- `str::split` at a character.
unfoldable pub split_on : ℕ → Text → List Text
split_on sep [] = [] ∷ []
split_on sep (c ∷ t) =
    let rest = split_on sep t in if nat_eq c sep then [] ∷ rest else cons_first c rest

-- The components after the first; empty parts and `.` go away.
unfoldable pub later_components : List Text → FilePath
later_components [] = []
later_components (p ∷ ps) =
    let rest = later_components ps in
    if is_empty p || text_eq p (46 ∷ [])
    then rest
    else if text_eq p (46 ∷ 46 ∷ [])
    then parent_dir ∷ rest
    else normal (from_codes p) ∷ rest

abbrev first_component : List Text → FilePath
first_component [] = []
first_component (p ∷ ps) =
    if text_eq p (46 ∷ []) then cur_dir ∷ later_components ps else later_components (p ∷ ps)

unfoldable pub path_of : Text → FilePath
unfolding later_components split_on text_eq from_codes
path_of [] = []
path_of (c ∷ t) =
    if nat_eq c 47
    then root_dir ∷ later_components (split_on 47 t)
    else first_component (split_on 47 (c ∷ t))

-- `none` is the panic of an end that is no character boundary or lies behind the text.
unfoldable pub slice_to : ℕ → Text → Option Text
slice_to zero t = some []
slice_to (suc n) [] = none
slice_to (suc n) (c ∷ t) =
    let rest = slice_to (suc n - len_utf8 c) t in
    if ltb (suc n) (len_utf8 c) then none else elim rest [ none ↦ none | some u ↦ some (c ∷ u) ]
