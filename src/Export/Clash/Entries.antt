-- ===== src/Export/Clash/Entries.antt =====
-- What is found in an entry after each way of insertion.
use sub_hub.Common.{
  Text, lit, ◌≡◌, refl, not, ◌||◌, Bool, true, false, Option, none, some, List, [], ◌∷◌, text_eq,
  text_eq_iff, or_else, non_empty, unwrap_or, if◌then◌else◌, arith, ◌>>=◌, Bool-cases, inl, inr,
}
use sub_hub.Model.Json.{
  Json, Members, find_member, insert, as_string, as_bool, get, first_of, insert, text_at,
}
use sub_hub.Model.Json.Laws.{find_member-insert, strings-string_items}
use sub_hub.Model.Proxy.{Proxy, has}
use sub_hub.Export.Clash.{
  insert_some, insert_transport_opts, transport_opts, strings_of, bool_of, list_value,
}
use sub_hub.Model.Fingerprint.{alpn_parts, tagged}
use sub_hub.Parse.Fields.{yaml_string_list, some_list}

pub find_member-insert_some :
    (k key : Text) (o : Option Json) (m : Members)
    → find_member k (insert_some key o m)
      ≡ (if text_eq key k then or_else o (find_member k m) else find_member k m)
unfolding insert_some
find_member-insert_some k key none m = ground arith
find_member-insert_some k key (some v) m = find_member-insert k key v m

-- The value at a key, if the pair has it.
unfoldable pub pair_value : Text → Option (Text × Json) → Option Json
pair_value k none = none
pair_value k (some (key, v)) = if text_eq key k then some v else none

insert_pair-find :
    (k : Text) (o : Option (Text × Json)) (m : Members)
    → find_member k (elim o as (λ _. Members) [ none ↦ m | some (key, v) ↦ insert key v m ])
      ≡ or_else (pair_value k o) (find_member k m)
unfolding pair_value
insert_pair-find k none m = refl
insert_pair-find k (some (key, v)) m = ground (arith, find_member-insert k key v m)

pub find_member-insert_transport_opts :
    (k : Text) (p : Proxy) (m : Members)
    → find_member k (insert_transport_opts p m)
      ≡ or_else (pair_value k (transport_opts p)) (find_member k m)
unfolding insert_transport_opts
find_member-insert_transport_opts k p m = insert_pair-find k (transport_opts p) m

-- A text, a flag and a list of texts are read back.
pub strings_of-as_string : (o : Option Text) → (strings_of o >>= as_string) ≡ non_empty o
strings_of-as_string none = refl
strings_of-as_string (some []) = refl
strings_of-as_string (some (c ∷ s)) = refl

pub bool_of-as_bool : (o : Option Bool) → (bool_of o >>= as_bool) ≡ o
bool_of-as_bool none = refl
bool_of-as_bool (some b) = refl

pub list_value-yaml_string_list :
    (o : Option (List Text)) → yaml_string_list (list_value o) ≡ (o >>= some_list)
unfolding yaml_string_list
list_value-yaml_string_list none = refl
list_value-yaml_string_list (some []) = refl
list_value-yaml_string_list (some (t ∷ ts)) = rw (strings-string_items ts)

pub ws_value : Proxy → Option Json
ws_value p = pair_value (lit "ws-opts") (transport_opts p)

pub grpc_value : Proxy → Option Json
grpc_value p = pair_value (lit "grpc-opts") (transport_opts p)

pub h2_value : Proxy → Option Json
h2_value p = pair_value (lit "h2-opts") (transport_opts p)

other_key : (a b k : Text) → text_eq b a ≡ false → text_eq a k ≡ true → text_eq b k ≡ false
other_key a b k n e = elim (Bool-cases (text_eq b k)) [
  | inl f ↦ ground (arith, text_eq_iff a k, text_eq_iff b k, text_eq_iff b a)
  | inr f ↦ f
]

transport_keys :
    (text_eq (lit "ws-opts") (lit "ws-opts") ≡ true)
    × (text_eq (lit "grpc-opts") (lit "grpc-opts") ≡ true)
    × (text_eq (lit "h2-opts") (lit "h2-opts") ≡ true)
    × (text_eq (lit "grpc-opts") (lit "ws-opts") ≡ false)
    × (text_eq (lit "h2-opts") (lit "ws-opts") ≡ false)
    × (text_eq (lit "h2-opts") (lit "grpc-opts") ≡ false)
    × (text_eq (lit "ws-opts") (lit "grpc-opts") ≡ false)
    × (text_eq (lit "ws-opts") (lit "h2-opts") ≡ false)
    × (text_eq (lit "grpc-opts") (lit "h2-opts") ≡ false)
unfolding text_eq
transport_keys = (refl, refl, refl, refl, refl, refl, refl, refl, refl)

one_of :
    (k : Text) (b c e f : Bool) (v w x : Json)
    → let o : Option (Text × Json) =
        if b
        then (if c then some (lit "ws-opts", v) else none)
        else if e
        then some (lit "grpc-opts", w)
        else if f
        then some (lit "h2-opts", x)
        else none in
      pair_value k o ≡ (
        if text_eq (lit "ws-opts") k
        then pair_value (lit "ws-opts") o
        else if text_eq (lit "grpc-opts") k
        then pair_value (lit "grpc-opts") o
        else if text_eq (lit "h2-opts") k
        then pair_value (lit "h2-opts") o
        else none)
unfolding pair_value
one_of k true true e f v w x = ground (arith, transport_keys)
one_of k true false e f v w x = ground arith
one_of k false c true f v w x =
    ground (arith, transport_keys, other_key (lit "ws-opts") (lit "grpc-opts") k)
one_of k false c false true v w x = ground (
  arith,
  transport_keys,
  other_key (lit "ws-opts") (lit "h2-opts") k,
  other_key (lit "grpc-opts") (lit "h2-opts") k,
)
one_of k false c false false v w x = ground arith

-- A transport is found at its own key only.
pub pair_value-transport_opts :
    (k : Text) (p : Proxy)
    → pair_value k (transport_opts p) ≡ (
        if text_eq (lit "ws-opts") k
        then ws_value p
        else if text_eq (lit "grpc-opts") k
        then grpc_value p
        else if text_eq (lit "h2-opts") k
        then h2_value p
        else none)
unfolding transport_opts ws_value grpc_value h2_value
pair_value-transport_opts k p = one_of k _ _ _ _ _ _ _

-- The fields of the transport lie in its object, as far as they are not empty.
unfoldable pub transport_carries : Proxy → Bool
transport_carries p =
    let net = unwrap_or p.network [] in
    if text_eq net (lit "ws")
    then not (has p.service_name)
    else if text_eq net (lit "grpc")
    then not (has p.path || has p.host)
    else if text_eq net (lit "h2") || text_eq net (lit "http")
    then not (has p.service_name)
    else not (has p.path || has p.host || has p.service_name)

abbrev with_transport : Proxy → Option Text → Option Text → Option Text → Option Text → Proxy
with_transport p n a h s = record p { network = n; path = a; host = h; service_name = s }

carried :
    (p : Proxy) (n a h s : Option Text)
    → transport_carries (with_transport p n a h s) ≡ true
    → (or_else
          (ws_value (with_transport p n a h s) >>= text_at (lit "path"))
          (h2_value (with_transport p n a h s) >>= text_at (lit "path"))
        ≡ non_empty a)
      × (or_else
            (ws_value (with_transport p n a h s)
              >>= get (lit "headers")
              >>= get (lit "Host")
              >>= as_string)
            (h2_value (with_transport p n a h s)
              >>= get (lit "host")
              >>= (λ x. or_else (as_string x) (first_of x >>= as_string)))
          ≡ non_empty h)
      × ((grpc_value (with_transport p n a h s) >>= text_at (lit "grpc-service-name"))
          ≡ non_empty s)
unfolding transport_carries transport_opts ws_value grpc_value h2_value text_eq pair_value text_at
    insert_some insert
carried p n a h s c = ground arith

module _ (p : Proxy) (c : transport_carries p ≡ true) where
  pub path-carried :
      or_else (ws_value p >>= text_at (lit "path")) (h2_value p >>= text_at (lit "path"))
      ≡ non_empty p.path
  path-carried = (carried p p.network p.path p.host p.service_name c).0

  pub host-carried :
      or_else (ws_value p >>= get (lit "headers") >>= get (lit "Host") >>= as_string) (
        h2_value p >>= get (lit "host") >>= (λ x. or_else (as_string x) (first_of x >>= as_string)))
      ≡ non_empty p.host
  host-carried = (carried p p.network p.path p.host p.service_name c).1

  pub service_name-carried :
      (grpc_value p >>= text_at (lit "grpc-service-name")) ≡ non_empty p.service_name
  service_name-carried = (carried p p.network p.path p.host p.service_name c).2

-- An empty text and none are the same to the fingerprint.
pub tagged-non_empty : (key : Text) (o : Option Text) → tagged key (non_empty o) ≡ tagged key o
tagged-non_empty key none = refl
tagged-non_empty key (some []) = refl
tagged-non_empty key (some (c ∷ s)) = refl

pub unwrap_or-non_empty : (o : Option Text) → unwrap_or (non_empty o) [] ≡ unwrap_or o []
unwrap_or-non_empty none = refl
unwrap_or-non_empty (some []) = refl
unwrap_or-non_empty (some (c ∷ s)) = refl

pub alpn_parts-some_list : (o : Option (List Text)) → alpn_parts (o >>= some_list) ≡ alpn_parts o
alpn_parts-some_list none = refl
alpn_parts-some_list (some []) = refl
alpn_parts-some_list (some (t ∷ ts)) = refl

pub or_else-none {ℓ} : {A : Type ℓ} (o : Option A) → or_else o none ≡ o
or_else-none none = refl
or_else-none (some a) = refl

pub tagged-none : (key : Text) (o : Option Text) → unwrap_or o [] ≡ [] → tagged key o ≡ []
tagged-none key none e = refl
tagged-none key (some []) e = refl
tagged-none key (some (c ∷ s)) e = cc
