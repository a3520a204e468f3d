-- ===== src/Agent/Json/Lookup.antt =====
-- What is found in an object after fields have been put into it.
use zier_alpha.Prelude.{
  ◌≡◌, refl, ap, String, List, [], ◌∷◌, Option, none, some, ◌==◌, eq_iff, arith, if◌then◌else◌,
}
use zier_alpha.Agent.Json.{Json, Fields, end, field, get_field, put, put_option, items, to_list}

pub get_field-put :
    (j k : String) (v : Json) (fs : Fields)
    → get_field j (put k v fs) ≡ (if k == j then some v else get_field j fs)
unfolding get_field put
get_field-put j k v end = refl
get_field-put j k v (field i w fs) =
    ground (arith, eq_iff k j, eq_iff i k, eq_iff i j, get_field-put j k v fs)

abbrev or_else : Option Json → Option Json → Option Json
or_else none r = r
or_else (some v) r = some v

-- Fields that may be missing, put one after the other from the end of the list.
abbrev pub puts : List (String × Option Json) → Fields → Fields
puts [] fs = fs
puts ((k, o) ∷ l) fs = put_option k o (puts l fs)

-- What is found under a name, of what is given for it and what was there.
abbrev pub found : String → List (String × Option Json) → Option Json → Option Json
found k [] old = old
found k ((j, o) ∷ l) old = let r = found k l old in if j == k then or_else o r else r

get_field-put_option :
    (j k : String) (o : Option Json) (fs : Fields)
    → get_field j (put_option k o fs)
      ≡ (if k == j then or_else o (get_field j fs) else get_field j fs)
unfolding put_option
get_field-put_option j k none fs = ground arith
get_field-put_option j k (some v) fs = get_field-put j k v fs

pub get_field-puts :
    (k : String) (l : List (String × Option Json)) (fs : Fields)
    → get_field k (puts l fs) ≡ found k l (get_field k fs)
get_field-puts k [] fs = refl
get_field-puts k ((j, o) ∷ l) fs =
    rw (get_field-put_option k j o (puts l fs), get_field-puts k l fs)

-- What a field has that may be missing, and was not there before.
pub or_else-none : (o : Option Json) → or_else o none ≡ o
or_else-none none = refl
or_else-none (some v) = refl

pub to_list-items : (vs : List Json) → to_list (items vs) ≡ vs
unfolding to_list items
to_list-items [] = refl
to_list-items (v ∷ vs) = ap (◌∷◌ v) (to_list-items vs)
