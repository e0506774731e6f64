-- ===== src/Parse/Document/Steps.antt =====
-- The steps that give a node with a port (core/src/parse.rs).
use mathlib.Core.Path.{subst}
use sub_hub.Common.{
  ℕ, ◌≡◌, refl, ◌∙◌, Bool, true, Option, none, some, List, [], ◌∷◌, ◌++◌, Text, lit, ◌>>=◌, arith,
  every, Option-cases, inl, inr, unwrap_or, or_else,
}
use sub_hub.Model.Json.{Json, Items, nil, cons, filter_items, get, text_at}
use sub_hub.Model.Proxy.{Proxy, ProxyType, new}
use sub_hub.Model.Region.{Unicode}
use sub_hub.Parse.Clash.{from_clash_value, with_reality}
use sub_hub.Parse.Fields.{
  Doubles, is_port, port_from_json, number_or_text, whole_number, valid_port,
}
use sub_hub.Parse.SingBox.{node_from_singbox}
use sub_hub.Parse.V2ray.{
  node_from_v2ray, from_target, v2ray_type, target_of, user_in, v2ray_fields, maybe_stream,
  with_stream,
}
use sub_hub.Parse.Document.{}

abbrev pub has_port : Proxy → Bool
has_port p = is_port p.port

unfoldable pub have_ports : List Proxy → Bool
have_ports = every has_port

-- A step that gives a node with a port, or none.
unfoldable pub Gives : {A : Type 0} → (A → Option Proxy) → Type 0
Gives {A} f = (a : A) (p : Proxy) → f a ≡ some p → has_port p ≡ true

pub filter_items-have_ports :
    (f : Json → Option Proxy) → Gives f → (xs : Items) → have_ports (filter_items f xs) ≡ true
unfolding Gives filter_items have_ports
filter_items-have_ports f g nil = refl
filter_items-have_ports f g (cons v vs) = elim (Option-cases (f v)) [
  | inl n ↦ rw (n, filter_items) (filter_items-have_ports f g vs)
  | inr (p, e) ↦ rw (e, filter_items, g v p e) (filter_items-have_ports f g vs)
]

pub concat-have_ports :
    (ps qs : List Proxy)
    → have_ports ps ≡ true
    → have_ports qs ≡ true
    → have_ports (ps ++ qs) ≡ true
unfolding have_ports
concat-have_ports [] qs h j = j
concat-have_ports (p ∷ ps) qs h j = ground (arith, concat-have_ports ps qs, h, j)

pub from_clash_value-Gives : (d : Doubles) (u : Unicode) → Gives (λ v. from_clash_value d v u)
unfolding Gives from_clash_value with_reality
from_clash_value-Gives d u v p e = ground (arith, e)

pub node_from_singbox-Gives : (d : Doubles) → Gives (node_from_singbox d)
unfolding Gives node_from_singbox
node_from_singbox-Gives d v p e = ground (arith, e)

-- The node, if there is one, has a port.
unfoldable pub none_or_port : Option Proxy → Bool
none_or_port none = true
none_or_port (some p) = has_port p

pub bind_port {ℓ} :
    {A : Type ℓ} (o : Option A) (f : A → Option Proxy)
    → ((a : A) → o ≡ some a → none_or_port (f a) ≡ true)
    → none_or_port (o >>= f) ≡ true
unfolding none_or_port
bind_port none f h = refl
bind_port (some a) f h = h a refl

pub port_from_json-is_port :
    (d : Doubles) (v : Option Json) (n : ℕ) → port_from_json d v ≡ some n → is_port n ≡ true
unfolding port_from_json
port_from_json-is_port d none n e = ground (arith, e)
port_from_json-is_port d (some x) n e = go (or_else (number_or_text x) (whole_number d x)) e
  where
    go : (o : Option ℕ) → (o >>= valid_port) ≡ some n → is_port n ≡ true
    go none f = ground (arith, f)
    go (some m) f = ground (arith, f)

pub stream_port : (o : Option Json) (p : Proxy) → has_port (maybe_stream o p) ≡ has_port p
unfolding with_stream
stream_port none p = refl
stream_port (some st) p = refl

pub bind_numbered :
    (o : Option Text) (m : Option ℕ) (t : Option ProxyType) (f : Text → ℕ → ProxyType → Proxy)
    → ((n : ℕ) → m ≡ some n → is_port n ≡ true)
    → ((s : Text) (n : ℕ) (u : ProxyType) → has_port (f s n u) ≡ is_port n)
    → none_or_port (o >>= (λ s. m >>= (λ n. t >>= (λ u. some (f s n u))))) ≡ true
unfolding none_or_port
bind_numbered none m t f h j = refl
bind_numbered (some s) none t f h j = refl
bind_numbered (some s) (some n) none f h j = refl
bind_numbered (some s) (some n) (some u) f h j = j s n u ∙ h n refl

pub from_target-port :
    (d : Doubles) (ob : Json) (proto : Text) (target : Json)
    → none_or_port (from_target d ob proto target) ≡ true
unfolding from_target
from_target-port d ob proto target =
    let numbered = or_else (get (lit "port") target) (get (lit "port") (user_in target)) in
    bind_numbered
      (or_else (text_at (lit "address") target) (text_at (lit "address") (user_in target)))
      (port_from_json d numbered) (v2ray_type proto)
      (λ server port t. maybe_stream (get (lit "streamSettings") ob) (
        v2ray_fields target (user_in target)
          (new (unwrap_or (text_at (lit "tag") ob) proto) t server port)))
      (port_from_json-is_port d numbered)
      (λ s n u. stream_port (get (lit "streamSettings") ob) (
        v2ray_fields target (user_in target)
          (new (unwrap_or (text_at (lit "tag") ob) proto) u s n)))

pub v2ray_port : (d : Doubles) (ob : Json) → none_or_port (node_from_v2ray d ob) ≡ true
unfolding node_from_v2ray
v2ray_port d ob =
    bind_port (text_at (lit "protocol") ob) (λ proto. target_of ob >>= from_target d ob proto)
      (λ proto e.
        bind_port (target_of ob) (from_target d ob proto)
          (λ target f. from_target-port d ob proto target))

pub node_from_v2ray-Gives : (d : Doubles) → Gives (node_from_v2ray d)
unfolding Gives none_or_port
node_from_v2ray-Gives d v p e = subst (λ o. none_or_port o ≡ true) e (v2ray_port d v)
