-- ===== src/Model/Json/Laws.antt =====
-- What `get` finds after an insertion.
use sub_hub.Model.Json.{
  items, filter_items, Json, Members, end, member, find_member, insert, strings, string_items,
}
use sub_hub.Common.{
  Option, some, Text, ◌≡◌, refl, List, [], ◌∷◌, text_eq, text_eq_iff, if◌then◌else◌, arith, ap,
}

pub find_member-insert :
    (k key : Text) (v : Json) (m : Members)
    → find_member k (insert key v m) ≡ (if text_eq key k then some v else find_member k m)
unfolding find_member insert
find_member-insert k key v end = refl
find_member-insert k key v (member j w m) =
    ground
      (arith, find_member-insert k key v m, text_eq_iff j key, text_eq_iff j k, text_eq_iff key k)

pub strings-string_items : (ts : List Text) → strings (string_items ts) ≡ ts
strings-string_items [] = refl
strings-string_items (t ∷ ts) = ap (λ l. t ∷ l) (strings-string_items ts)

pub filter_items-cons {ℓ} :
    {A : Type ℓ} (f : Json → Option A) (j : Json) (js : List Json) (a : A)
    → f j ≡ some a
    → filter_items f (items (j ∷ js)) ≡ a ∷ filter_items f (items js)
unfolding filter_items
filter_items-cons f j js a e = rw e refl
