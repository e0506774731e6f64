-- ===== src/Parse/Document.antt =====
-- `parse_subscription`: the formats that a document is tried as (core/src/parse.rs).
pub mod Ports
pub mod Steps
use sub_hub.Common.{
  ℕ, zero, suc, ◌*◌, Bool, false, not, ◌&&◌, ◌||◌, Option, none, some, List, [], ◌∷◌, ◌++◌, Text,
  lit, text_eq, is_empty, contains, contains_text, starts_with, if◌then◌else◌, ◌>>=◌, trim,
  trim_start_of, split_at, join, to_ascii_lowercase, ◌==◌, leb, length, is_some,
}
use sub_hub.Model.Json.{Json, get, as_array, filter_items}
use sub_hub.Model.Proxy.{Proxy}
use sub_hub.Parse.Clash.{from_clash_value}
use sub_hub.Parse.Links.{parse_uri}
use sub_hub.Parse.SingBox.{parse_singbox_json}
use sub_hub.Parse.Uri.{Codecs, b64_decode, split_scheme}
use sub_hub.Parse.V2ray.{parse_v2ray_json}

-- MAX_B64_DEPTH and MAX_B64_DECODED_BYTES.
abbrev pub max_b64_depth : ℕ
max_b64_depth = 3

abbrev pub max_b64_decoded_bytes : ℕ
max_b64_decoded_bytes = 16 * 1024 * 1024

-- `raw.lines()`: a carriage return counts to the line break behind it.
unfoldable pub without_return : Text → Text
without_return [] = []
without_return (c ∷ []) = if c == 13 then [] else c ∷ []
without_return (c ∷ d ∷ s) = c ∷ without_return (d ∷ s)

unfoldable pub line_texts : List Text → List Text
unfolding without_return
line_texts [] = []
line_texts ([] ∷ []) = []
line_texts ((c ∷ s) ∷ []) = (c ∷ s) ∷ []
line_texts (t ∷ u ∷ ts) = without_return t ∷ line_texts (u ∷ ts)

unfoldable pub lines : Text → List Text
unfolding line_texts
lines s = line_texts (split_at (λ c. c == 10) s)

abbrev known_schemes : List Text
known_schemes =
    lit "vmess"
    ∷ lit "vless"
    ∷ lit "trojan"
    ∷ lit "ss"
    ∷ lit "ssr"
    ∷ lit "hysteria2"
    ∷ lit "hy2"
    ∷ lit "hysteria"
    ∷ lit "tuic"
    ∷ lit "anytls"
    ∷ lit "socks5"
    ∷ lit "socks"
    ∷ lit "http"
    ∷ lit "https"
    ∷ []

unfoldable pub is_known_scheme : Text → Bool
is_known_scheme scheme = contains_text known_schemes (to_ascii_lowercase scheme)

unfoldable pub any_link : List Text → Bool
unfolding is_known_scheme split_scheme
any_link [] = false
any_link (l ∷ ls) =
    is_some (split_scheme (trim l) >>= (λ (s, r). if is_known_scheme s then some s else none))
    || any_link ls

unfoldable pub looks_like_subscription : Text → Bool
unfolding any_link lines
looks_like_subscription text =
    contains text (lit "proxies:")
    || contains text (lit "\"outbounds\"")
    || contains text (lit "\"proxies\"")
    || any_link (lines text)

-- The lines of the block, behind its first.
unfoldable pub block_rest : List Text → List Text
block_rest [] = []
block_rest (l ∷ ls) =
    if is_empty (trim l)
      || starts_with l (lit " ")
      || starts_with l (9 ∷ [])
      || starts_with l (lit "-")
    then l ∷ block_rest ls
    else []

unfoldable pub yaml_lines : List Text → List Text
unfolding block_rest
yaml_lines [] = []
yaml_lines (l ∷ ls) = if starts_with l (lit "proxies:") then l ∷ block_rest ls else yaml_lines ls

module _ (k : Codecs) where
  unfoldable pub parse_clash_yaml : Text → List Proxy
  unfolding from_clash_value get filter_items
  parse_clash_yaml s = elim (k.yaml s >>= get (lit "proxies") >>= as_array) [
    | none ↦ []
    | some proxies ↦ filter_items (λ v. from_clash_value k.doubles v k.unicode) proxies
  ]

  unfoldable pub extract_yaml_proxies : Text → List Proxy
  unfolding yaml_lines parse_clash_yaml lines
  extract_yaml_proxies raw = elim (yaml_lines (lines raw)) [
    | [] ↦ []
    | l ∷ ls ↦ parse_clash_yaml (join 10 (l ∷ ls))
  ]

  -- A line with a link; an HTTP link needs a user part.
  unfoldable pub link_of : Text → Option Proxy
  unfolding is_known_scheme split_scheme parse_uri
  link_of l = split_scheme (trim l) >>= (λ (scheme, rest).
      let sl = to_ascii_lowercase scheme in
      if not (is_known_scheme scheme) || text_eq sl (lit "ssr")
      then none
      else if (text_eq sl (lit "http") || text_eq sl (lit "https")) && not (contains rest (lit "@"))
      then none
      else parse_uri k (trim l))

  unfoldable pub links : List Text → List Proxy
  unfolding link_of
  links [] = []
  links (l ∷ ls) = elim (link_of l) [ none ↦ links ls | some p ↦ p ∷ links ls ]

  abbrev parsed : Option Json → (Json → List Proxy) → List Proxy
  parsed none f = []
  parsed (some v) f = f v

  unfoldable pub structured : Text → List Proxy
  unfolding parse_singbox_json parse_v2ray_json parse_clash_yaml
  structured raw =
      if starts_with raw (lit "{") || starts_with raw (lit "[")
      then (if contains raw (lit "outbounds") || starts_with raw (lit "[")
          then parsed (k.json raw) (parse_singbox_json k.doubles)
            ++ parsed (k.json raw) (parse_v2ray_json k.doubles)
          else [])
        ++ (if contains raw (lit "\"proxies\"") then parse_clash_yaml raw else [])
      else []

  -- The nodes of a document that is not a base64 text of another.
  unfoldable pub flat : Text → List Proxy
  unfolding structured extract_yaml_proxies links lines
  flat raw = structured raw ++ extract_yaml_proxies raw ++ links (lines raw)

  -- The document in a base64 text.
  unfoldable pub unwrapped : Text → Option Text
  unfolding b64_decode looks_like_subscription
  unwrapped raw = b64_decode k raw >>= (λ decoded.
      let text = k.from_utf8_lossy decoded in
      if leb (length decoded) max_b64_decoded_bytes
        && not (is_empty (trim text))
        && not (text_eq (trim text) raw)
        && looks_like_subscription text
      then some text
      else none)

  abbrev pub body_of : Text → Text
  body_of raw = trim (trim_start_of (λ c. c == 0xFEFF) raw)

  -- With the number of base64 layers that may still be taken off.
  unfoldable pub parse_subscription_depth : ℕ → Text → List Proxy
  unfolding unwrapped flat
  parse_subscription_depth zero raw = if is_empty (body_of raw) then [] else flat (body_of raw)
  parse_subscription_depth (suc depth) raw =
      if is_empty (body_of raw) then [] else elim (unwrapped (body_of raw)) [
        | none ↦ flat (body_of raw)
        | some text ↦ parse_subscription_depth depth text
      ]

  unfoldable pub parse_subscription : Text → List Proxy
  unfolding parse_subscription_depth
  parse_subscription raw = parse_subscription_depth max_b64_depth raw
