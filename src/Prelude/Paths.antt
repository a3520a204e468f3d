-- ===== src/Prelude/Paths.antt =====
-- `std::path::Path` on Unix, by its components.
use Prim.Native.String.{String}
use mathlib.Core.Path.{◌≡◌, refl}
use mathlib.Core.Bool.{Bool, true, false, ◌&&◌}
use mathlib.Core.List.{List, [], ◌∷◌, ◌++◌}
use mathlib.Core.Option.{Option, none, some}
use native.Mathlib.Omega.{arith}
use text.Mathlib.Text.{◌==◌}
use text.Mathlib.TextEquality.{eq_iff}

pub data Component : Type 0 where
  root_dir cur_dir parent_dir : Component
  normal : String → Component

abbrev pub FilePath : Type 0
FilePath = List Component

unfoldable pub component_eq : Component → Component → Bool
component_eq root_dir root_dir = true
component_eq cur_dir cur_dir = true
component_eq parent_dir parent_dir = true
component_eq (normal a) (normal b) = a == b
component_eq _ _ = false

unfoldable pub is_absolute : FilePath → Bool
is_absolute (root_dir ∷ rest) = true
is_absolute _ = false

-- An absolute path replaces the one that it is joined to; a leading `.` goes away.
unfoldable pub join_path : FilePath → FilePath → FilePath
join_path base (root_dir ∷ rest) = root_dir ∷ rest
join_path [] path = path
join_path (c ∷ base) (cur_dir ∷ rest) = (c ∷ base) ++ rest
join_path (c ∷ base) path = (c ∷ base) ++ path

-- The path without its last component; a root has none.
unfoldable pub parent : FilePath → Option FilePath
parent [] = none
parent (root_dir ∷ []) = none
parent (c ∷ []) = some []
parent (c ∷ d ∷ path) = go (parent (d ∷ path))
  where
    go : Option FilePath → Option FilePath
    go none = none
    go (some p) = some (c ∷ p)

-- The last component, if it is a name.
unfoldable pub file_name : FilePath → Option String
file_name [] = none
file_name (normal n ∷ []) = some n
file_name (c ∷ []) = none
file_name (c ∷ d ∷ path) = file_name (d ∷ path)

-- Whether the second path is a prefix of the first, component by component.
unfoldable pub starts_with_path : FilePath → FilePath → Bool
starts_with_path path [] = true
starts_with_path [] (r ∷ root) = false
starts_with_path (c ∷ path) (r ∷ root) = component_eq c r && starts_with_path path root

component_eq-eq : (a b : Component) → component_eq a b ≡ true → a ≡ b
unfolding component_eq
component_eq-eq root_dir root_dir h = refl
component_eq-eq cur_dir cur_dir h = refl
component_eq-eq parent_dir parent_dir h = refl
component_eq-eq (normal a) (normal b) h = ground (arith, eq_iff a b)
component_eq-eq _ _ h = absurd (cc)

component_eq_refl : (a : Component) → component_eq a a ≡ true
unfolding component_eq
component_eq_refl root_dir = refl
component_eq_refl cur_dir = refl
component_eq_refl parent_dir = refl
component_eq_refl (normal a) = ground (arith, eq_iff a a)

-- A path that starts with another is that one and something more.
pub starts_with_path-append :
    (path root : FilePath)
    → starts_with_path path root ≡ true
    → (rest : FilePath) × (path ≡ root ++ rest)
unfolding starts_with_path
starts_with_path-append path [] h = (path, refl)
starts_with_path-append [] (r ∷ root) h = absurd (cc)
starts_with_path-append (c ∷ path) (r ∷ root) h =
    let (rest, same) = starts_with_path-append path root (ground arith) in
    let first = component_eq-eq c r (ground arith) in (rest, cc)

pub append-starts_with_path : (root rest : FilePath) → starts_with_path (root ++ rest) root ≡ true
unfolding starts_with_path
append-starts_with_path [] rest = refl
append-starts_with_path (r ∷ root) rest =
    ground (arith, component_eq_refl r, append-starts_with_path root rest)
