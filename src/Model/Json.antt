-- ===== src/Model/Json.antt =====
-- `Value` of serde_json, by its public constructors, and the operations that the source calls. A
-- `Value` of serde_yaml is read in the same way: a mapping is the object of its text keys, since no
-- code looks at the others, and a tag is not seen.
pub mod Laws
use sub_hub.Common.{
  ℕ, Text, Bool, true, false, Option, none, some, List, [], ◌∷◌, text_eq, non_empty, if◌then◌else◌,
  ◌>>=◌,
}
use sub_hub.Common.Float.{F64}

-- An unsigned integer of 64 bits, or else the double that `as_f64` gives.
pub data Number : Type 0 where
  unsigned : ℕ → Number
  real : F64 → Number

mutual
  pub data Json : Type 0 where
    null : Json
    bool : Bool → Json
    number : Number → Json
    string : Text → Json
    array : Items → Json
    object : Members → Json

  pub data Items : Type 0 where
    nil : Items
    cons : Json → Items → Items

  pub data Members : Type 0 where
    end : Members
    member : Text → Json → Members → Members

unfoldable pub find_member : Text → Members → Option Json
find_member key end = none
find_member key (member k v m) = if text_eq k key then some v else find_member key m

-- `v.get(key)`.
unfoldable pub get : Text → Json → Option Json
unfolding find_member
get key (object m) = find_member key m
get key _ = none

-- `map.insert(key, value)`, and `v[key] = value` on an object.
unfoldable pub insert : Text → Json → Members → Members
insert key v end = member key v end
insert key v (member k w m) = if text_eq k key then member k v m else member k w (insert key v m)

abbrev pub as_string : Json → Option Text
as_string (string t) = some t
as_string _ = none

abbrev pub as_u64 : Json → Option ℕ
as_u64 (number (unsigned n)) = some n
as_u64 _ = none

abbrev pub as_bool : Json → Option Bool
as_bool (bool b) = some b
as_bool _ = none

abbrev pub as_array : Json → Option Items
as_array (array xs) = some xs
as_array _ = none

abbrev pub as_object : Json → Option Members
as_object (object m) = some m
as_object _ = none

abbrev pub first : Items → Option Json
first nil = none
first (cons v vs) = some v

-- `x.as_array()` and its first element.
abbrev pub first_of : Json → Option Json
first_of v = as_array v >>= first

-- `filter_map(|x| x.as_str())`.
abbrev pub strings : Items → List Text
strings nil = []
strings (cons (string t) vs) = t ∷ strings vs
strings (cons _ vs) = strings vs

-- The texts as values.
abbrev pub string_items : List Text → Items
string_items [] = nil
string_items (t ∷ ts) = cons (string t) (string_items ts)

-- A sequence of values.
abbrev pub items : List Json → Items
items [] = nil
items (v ∷ vs) = cons v (items vs)

-- The elements that a step gives.
unfoldable pub filter_items {ℓ} : {A : Type ℓ} → (Json → Option A) → Items → List A
filter_items f nil = []
filter_items f (cons v vs) = elim (f v) [
  | none ↦ filter_items f vs
  | some a ↦ a ∷ filter_items f vs
]

-- `v.get(key).and_then(|x| x.as_str())`.
unfoldable pub text_at : Text → Json → Option Text
unfolding get
text_at key v = get key v >>= as_string

-- The text at a path of two keys.
unfoldable pub text_within : Text → Text → Json → Option Text
unfolding text_at get
text_within outer key v = get outer v >>= text_at key
