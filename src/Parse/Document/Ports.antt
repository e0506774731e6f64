-- ===== src/Parse/Document/Ports.antt =====
-- Every node of a subscription document has a port (core/src/parse.rs).
use sub_hub.Common.{
  ℕ, suc, zero, ◌≡◌, refl, Bool, true, false, ◌&&◌, ◌||◌, Option, none, some, List, [], ◌∷◌, Text,
  lit, if◌then◌else◌, ◌>>=◌, arith, Option-cases, inl, inr, is_empty, or_else, join, not, text_eq,
  trim, to_ascii_lowercase, contains,
}
use sub_hub.Model.Json.{Json, Items, filter_items, get, as_array}
use sub_hub.Model.Proxy.{Proxy}
use sub_hub.Parse.Links.{parse_uri}
use sub_hub.Parse.Links.Ports.{parse_uri-is_linked}
use sub_hub.Parse.SingBox.{parse_singbox_json}
use sub_hub.Parse.Uri.{Codecs, split_scheme}
use sub_hub.Parse.V2ray.{parse_v2ray_json}
use sub_hub.Parse.Document.{
  parse_clash_yaml, extract_yaml_proxies, link_of, links, structured, flat,
  parse_subscription_depth, parse_subscription, body_of, max_b64_depth, unwrapped, yaml_lines,
  lines, is_known_scheme, parsed,
}
use sub_hub.Parse.Document.Steps.{
  have_ports, Gives, filter_items-have_ports, concat-have_ports, from_clash_value-Gives,
  node_from_singbox-Gives, none_or_port, bind_port, node_from_v2ray-Gives,
}

module _ (k : Codecs) where
  uri_port : (line : Text) → none_or_port (parse_uri k line) ≡ true
  unfolding none_or_port
  uri_port line = elim (Option-cases (parse_uri k line)) [
    | inl n ↦ rw n
    | inr (p, e) ↦
        let (low, high, _) = parse_uri-is_linked k line p e in rw e (ground (arith, low, high))
  ]

  choose_port :
      (b c : Bool) (o : Option Proxy)
      → none_or_port o ≡ true
      → none_or_port (if b then none else if c then none else o) ≡ true
  unfolding none_or_port
  choose_port true c o h = refl
  choose_port false true o h = refl
  choose_port false false o h = h

  link_port : (l : Text) → none_or_port (link_of k l) ≡ true
  unfolding link_of
  link_port l = bind_port (split_scheme (trim l)) _ (λ parts e.
      choose_port
        (not (is_known_scheme parts.0) || text_eq (to_ascii_lowercase parts.0) (lit "ssr"))
        ((text_eq (to_ascii_lowercase parts.0) (lit "http")
            || text_eq (to_ascii_lowercase parts.0) (lit "https"))
          && not (contains parts.1 (lit "@")))
        (parse_uri k (trim l)) (uri_port (trim l)))

  links-have_ports : (ls : List Text) → have_ports (links k ls) ≡ true
  unfolding links none_or_port have_ports
  links-have_ports [] = refl
  links-have_ports (l ∷ ls) = go (link_of k l) (link_port l) (links-have_ports ls)
    where
      go :
          (o : Option Proxy)
          → none_or_port o ≡ true
          → have_ports (links k ls) ≡ true
          → have_ports (elim o as (λ _. List Proxy) [ none ↦ links k ls | some p ↦ p ∷ links k ls ])
            ≡ true
      go none h r = r
      go (some p) h r = ground (arith, h, r)

  parsed-have_ports :
      (f : Json → List Proxy)
      → ((v : Json) → have_ports (f v) ≡ true)
      → (o : Option Json) → have_ports (parsed k o f) ≡ true
  unfolding have_ports
  parsed-have_ports f h none = refl
  parsed-have_ports f h (some v) = h v

  array_have_ports :
      (f : Json → Option Proxy)
      → Gives f
      → (o : Option Items)
      → have_ports (elim o as (λ _. List Proxy) [ none ↦ [] | some xs ↦ filter_items f xs ]) ≡ true
  unfolding have_ports
  array_have_ports f g none = refl
  array_have_ports f g (some xs) = filter_items-have_ports f g xs

  yaml_have_ports : (s : Text) → have_ports (parse_clash_yaml k s) ≡ true
  unfolding parse_clash_yaml
  yaml_have_ports s =
      array_have_ports _ (from_clash_value-Gives k.doubles k.unicode)
        (k.yaml s >>= get (lit "proxies") >>= as_array)

  block_has_ports : (raw : Text) → have_ports (extract_yaml_proxies k raw) ≡ true
  unfolding extract_yaml_proxies have_ports
  block_has_ports raw = go (yaml_lines (lines raw))
    where
      go :
          (ls : List Text)
          → have_ports (elim ls as (λ _. List Proxy) [
            | [] ↦ []
            | m ∷ ms ↦ parse_clash_yaml k (join 10 (m ∷ ms))
          ])
            ≡ true
      go [] = refl
      go (m ∷ ms) = yaml_have_ports (join 10 (m ∷ ms))

  singbox_have_ports : (v : Json) → have_ports (parse_singbox_json k.doubles v) ≡ true
  unfolding parse_singbox_json
  singbox_have_ports v =
      array_have_ports _ (node_from_singbox-Gives k.doubles) (get (lit "outbounds") v >>= as_array)

  v2ray_have_ports : (v : Json) → have_ports (parse_v2ray_json k.doubles v) ≡ true
  unfolding parse_v2ray_json
  v2ray_have_ports v =
      array_have_ports _ (node_from_v2ray-Gives k.doubles)
        (or_else (get (lit "outbounds") v >>= as_array) (as_array v))

  if_has_ports :
      (b : Bool) (ps : List Proxy) → have_ports ps ≡ true → have_ports (if b then ps else []) ≡ true
  unfolding have_ports
  if_has_ports true ps h = h
  if_has_ports false ps h = refl

  structured_has_ports : (raw : Text) → have_ports (structured k raw) ≡ true
  unfolding structured
  structured_has_ports raw = if_has_ports _ _ (
      concat-have_ports _ _
        (if_has_ports _ _ (
          concat-have_ports _ _ (parsed-have_ports _ singbox_have_ports (k.json raw))
            (parsed-have_ports _ v2ray_have_ports (k.json raw))))
        (if_has_ports _ _ (yaml_have_ports raw)))

  flat_has_ports : (raw : Text) → have_ports (flat k raw) ≡ true
  unfolding flat
  flat_has_ports raw =
      concat-have_ports _ _ (concat-have_ports _ _ (structured_has_ports raw) (block_has_ports raw))
        (links-have_ports (lines raw))

  layer_has_ports :
      (b : Bool) (o : Option Text) (ps : List Proxy) (f : Text → List Proxy)
      → have_ports ps ≡ true
      → ((t : Text) → have_ports (f t) ≡ true)
      → have_ports (if b then [] else elim o as (λ _. List Proxy) [ none ↦ ps | some t ↦ f t ])
        ≡ true
  unfolding have_ports
  layer_has_ports true o ps f h j = refl
  layer_has_ports false none ps f h j = h
  layer_has_ports false (some t) ps f h j = j t

  depth_has_ports :
      (depth : ℕ) (raw : Text) → have_ports (parse_subscription_depth k depth raw) ≡ true
  unfolding parse_subscription_depth have_ports
  depth_has_ports zero raw = ground (arith, flat_has_ports (body_of k raw))
  depth_has_ports (suc depth) raw =
      layer_has_ports (is_empty (body_of k raw)) (unwrapped k (body_of k raw))
        (flat k (body_of k raw)) (parse_subscription_depth k depth) (flat_has_ports (body_of k raw))
        (depth_has_ports depth)

  -- Whatever text is read and whatever the libraries decode, every node of a subscription has a port
  -- from 1 to 65535.
  pub parse_subscription-have_ports : (raw : Text) → have_ports (parse_subscription k raw) ≡ true
  unfolding parse_subscription
  parse_subscription-have_ports raw = depth_has_ports max_b64_depth raw
