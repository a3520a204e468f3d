-- ===== src/Agent/Json.antt =====
-- JSON values (`serde_json::Value`), as src/agent/session.rs builds and reads them. An object is an
-- association list; the order of its fields means nothing. A number that is no `u64` is its text.
pub mod Lookup
use zier_alpha.Prelude.{
  ℕ, String, Text, List, [], ◌∷◌, Option, none, some, Bool, true, false, ◌==◌, if◌then◌else◌,
}

mutual
  pub data Json : Type 0 where
    null : Json
    boolean : Bool → Json
    number : ℕ → Json
    other_number : Text → Json
    string : Text → Json
    array : Items → Json
    object : Fields → Json

  pub data Items : Type 0 where
    nil : Items
    cons : Json → Items → Items

  pub data Fields : Type 0 where
    end : Fields
    field : String → Json → Fields → Fields

unfoldable pub items : List Json → Items
items [] = nil
items (v ∷ vs) = cons v (items vs)

unfoldable pub to_list : Items → List Json
to_list nil = []
to_list (cons v vs) = v ∷ to_list vs

unfoldable pub get_field : String → Fields → Option Json
get_field k end = none
get_field k (field j v fs) = if j == k then some v else get_field k fs

-- `message["k"] = v` on an object.
unfoldable pub put : String → Json → Fields → Fields
put k v end = field k v end
put k v (field j w fs) = if j == k then field k v fs else field j w (put k v fs)

-- The same for a value that may be missing.
unfoldable pub put_option : String → Option Json → Fields → Fields
unfolding put
put_option k none fs = fs
put_option k (some v) fs = put k v fs

abbrev pub map_some {ℓ κ} : {A : Type ℓ} {B : Type κ} → (A → B) → Option A → Option B
map_some f none = none
map_some f (some a) = some (f a)

-- `Value::get`
abbrev pub get : String → Json → Option Json
get k (object fs) = get_field k fs
get k _ = none

-- `value["k"]`
abbrev pub index : String → Json → Json
index k v = elim (get k v) [ some w ↦ w | none ↦ null ]

abbrev pub as_str : Json → Option Text
as_str (string t) = some t
as_str _ = none

abbrev pub as_u64 : Json → Option ℕ
as_u64 (number n) = some n
as_u64 _ = none

abbrev pub as_array : Json → Option (List Json)
as_array (array vs) = some (to_list vs)
as_array _ = none
