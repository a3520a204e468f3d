-- ===== src/Agent/Session/Parsed.antt =====
-- src/agent/session.rs: what `parse_pi_message` reads from what `format_message_entry` has written.
use zier_alpha.Prelude.Strings.{from_codes-codes}
use zier_alpha.Prelude.{
  ℕ, suc, ◌≡◌, refl, sym, ap, ◌∙◌, String, Text, List, [], ◌∷◌, ◌++◌, map, Option, none, some, Bool,
  true, false, is_empty, length, length-append, any, codes, split_once, text_eq, text_eq-eq,
  text_eq_self, join, All, nat_eq, ◌>>=◌, arith, Bool-cases, inl, inr, if◌then◌else◌,
}
use zier_alpha.Ingress.Types.{ImageAttachment}
use zier_alpha.Agent.LlmError.{ToolCall}
use zier_alpha.Agent.Messages.{Role, user, assistant, system, tool}
use zier_alpha.Agent.Json.{array, items, get_field}
use zier_alpha.Agent.Json.Lookup.{to_list-items}
use zier_alpha.Agent.Session.Format.{
  pi_role, text_item, image_item, format_content, call_item, format_calls, parse_role, is_str,
  strip_suffix, media_type, image_of_url, parse_image, parse_text, filter_map, parse_images,
  parse_content, parse_call, parse_calls,
}

-- No comma, so that the first comma of a `data:` URL is the one before the data.
abbrev pub HasNoComma : ImageAttachment → Type 0
HasNoComma img = any (λ c. nat_eq c 44) img.media_type ≡ false

split_once-append-right :
    (sep : ℕ) (p t q r : Text)
    → any (λ c. nat_eq c sep) p ≡ false
    → split_once sep t ≡ some (q, r)
    → split_once sep (p ++ t) ≡ some (p ++ q, r)
unfolding split_once
split_once-append-right sep [] t q r h k = k
split_once-append-right sep (c ∷ p) t q r h k = elim (Bool-cases (nat_eq c sep)) [
  | inl e ↦ absurd (ground arith)
  | inr e ↦
      let rest = split_once-append-right sep p t q r (ground arith) k in rw (split_once, e, rest)
]

strip_suffix-append : (p q : Text) → strip_suffix p (q ++ p) ≡ some q
unfolding strip_suffix
strip_suffix-append [] [] = refl
strip_suffix-append (c ∷ p) [] = rw (strip_suffix, text_eq_self (c ∷ p))
strip_suffix-append p (c ∷ q) = elim (Bool-cases (text_eq (c ∷ (q ++ p)) p)) [
  | inl e ↦
      let same = ap length (text_eq-eq (c ∷ (q ++ p)) p e) in
      absurd (omega (arith, same, length-append q p))
  | inr e ↦ rw (strip_suffix, e, strip_suffix-append p q)
]

media_type-data : (t : Text) → media_type (codes "data:" ++ (t ++ codes ";base64")) ≡ t
unfolding media_type zier_alpha.Prelude.starts_with
media_type-data t = rw (media_type, strip_suffix-append (codes ";base64") t)

image_of_url-data :
    (img : ImageAttachment)
    → HasNoComma img
    → image_of_url (codes "data:" ++ (img.media_type ++ (codes ";base64," ++ img.body))) ≡ some img
unfolding image_of_url split_once
image_of_url-data img h =
    let cut : split_once 44 (codes ";base64," ++ img.body) ≡ some (codes ";base64", img.body) =
      refl in
    let url =
      split_once-append-right 44 (codes "data:") (img.media_type ++ (codes ";base64," ++ img.body))
        _ _ refl (split_once-append-right 44 img.media_type _ _ _ h cut) in
    rw (image_of_url, url, media_type-data img.media_type)

parse_image-image_item :
    (img : ImageAttachment) → HasNoComma img → parse_image (image_item img) ≡ some img
unfolding parse_image is_str get_field text_eq
parse_image-image_item img h = image_of_url-data img h

-- A list that a partial function reads item by item.
filter_map-map {ℓ κ} :
    {A : Type ℓ} {B : Type κ} (f : B → Option A) (g : A → B) (xs : List A)
    → All (λ x. f (g x) ≡ some x) xs
    → filter_map f (map g xs) ≡ xs
unfolding filter_map
filter_map-map f g [] h = refl
filter_map-map f g (x ∷ xs) (now, later) = rw (filter_map, now, filter_map-map f g xs later)

filter_map-none {ℓ κ χ} :
    {A : Type ℓ} {B : Type κ} {C : Type χ} (f : B → Option C) (g : A → B) (xs : List A)
    → ((x : A) → f (g x) ≡ none)
    → filter_map f (map g xs) ≡ []
unfolding filter_map
filter_map-none f g [] h = refl
filter_map-none f g (x ∷ xs) h = rw (filter_map, h x, filter_map-none f g xs h)

images-parsed :
    (images : List ImageAttachment)
    → All HasNoComma images
    → All (λ img. parse_image (image_item img) ≡ some img) images
images-parsed [] h = tt
images-parsed (img ∷ images) (now, later) =
    (parse_image-image_item img now, images-parsed images later)

pub parse_images-format_content :
    (t : Text) (images : List ImageAttachment)
    → All HasNoComma images
    → parse_images (array (items (format_content t images))) ≡ images
unfolding parse_images format_content filter_map parse_image is_str get_field text_eq
parse_images-format_content [] images h =
    rw (to_list-items (map image_item images))
      (filter_map-map parse_image image_item images (images-parsed images h))
parse_images-format_content (c ∷ t) images h =
    rw (to_list-items (text_item (c ∷ t) ∷ map image_item images))
      (filter_map-map parse_image image_item images (images-parsed images h))

pub parse_content-format_content :
    (t : Text) (images : List ImageAttachment)
    → parse_content (array (items (format_content t images))) ≡ t
unfolding parse_content format_content filter_map parse_text is_str get_field text_eq join
parse_content-format_content [] images = rw (
  to_list-items (map image_item images),
  filter_map-none parse_text image_item images (λ img. refl),
)
parse_content-format_content (c ∷ t) images = rw (
  to_list-items (text_item (c ∷ t) ∷ map image_item images),
  filter_map-none parse_text image_item images (λ img. refl),
)

parse_call-call_item : (call : ToolCall) → parse_call (call_item call) ≡ some call
unfolding parse_call get_field
parse_call-call_item call = rw (from_codes-codes call.id, from_codes-codes call.name)

calls-parsed : (calls : List ToolCall) → All (λ call. parse_call (call_item call) ≡ some call) calls
calls-parsed [] = tt
calls-parsed (call ∷ calls) = (parse_call-call_item call, calls-parsed calls)

pub parse_calls-format_calls :
    (calls : List ToolCall) → parse_calls (format_calls calls) ≡ some calls
unfolding parse_calls
parse_calls-format_calls calls =
    rw (to_list-items (map call_item calls))
      (ap some (filter_map-map parse_call call_item calls (calls-parsed calls)))

pub parse_role-pi_role : (role : Role) → parse_role (pi_role role) ≡ some role
unfolding parse_role text_eq
parse_role-pi_role user = refl
parse_role-pi_role assistant = refl
parse_role-pi_role system = refl
parse_role-pi_role tool = refl
