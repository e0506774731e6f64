-- ===== src/Parse/Links/Ports.antt =====
-- What every node from a share link has (core/src/parse.rs).
use mathlib.Core.Path.{subst}
use sub_hub.Common.{
  ℕ, ◌≡◌, refl, ◌≤◌, ◌<◌, Bool, true, false, ◌&&◌, Option, none, some, List, [], ◌∷◌, Text, lit,
  or_else, if◌then◌else◌, ◌>>=◌, arith, Option-cases, inl, inr, split_once, trim,
}
use sub_hub.Model.Json.{Json}
use sub_hub.Model.Proxy.{Proxy, ProxyType, socks5, http, wireguard, other}
use sub_hub.Parse.Authority.{Auth, split_authority}
use sub_hub.Parse.Authority.RoundTrip.{split_authority-port}
use sub_hub.Parse.Fields.{is_port}
use sub_hub.Parse.Uri.{
  Codecs, authority, parse_vmess, parse_vless, parse_trojan, vmess_node, b64_decode, split_scheme,
  param,
}
use sub_hub.Parse.Links.{
  parse_ss, ss_node, sip002, parse_hy2, parse_tuic, parse_anytls, parse_socks, parse_scheme,
  parse_uri, apply_ss_plugin, name_of,
}

-- The protocols that have links.
pub is_linked : ProxyType → Bool
is_linked wireguard = false
is_linked other = false
is_linked _ = true

abbrev sound : Proxy → Bool
sound p = is_port p.port && is_linked p.type_

-- What holds of the node, if there is one.
unfoldable all_of : Option Proxy → Bool
all_of none = true
all_of (some p) = sound p

none_sound : all_of none ≡ true
unfolding all_of
none_sound = refl

socks5_linked : is_linked socks5 ≡ true
unfolding is_linked
socks5_linked = refl

http_linked : is_linked http ≡ true
unfolding is_linked
http_linked = refl

choose :
    (b : Bool) (o q : Option Proxy)
    → all_of o ≡ true
    → all_of q ≡ true
    → all_of (if b then o else q) ≡ true
choose true o q h j = h
choose false o q h j = j

bind {ℓ} :
    {A : Type ℓ} (o : Option A) (f : A → Option Proxy)
    → ((a : A) → all_of (f a) ≡ true)
    → all_of (o >>= f) ≡ true
unfolding all_of
bind none f h = refl
bind (some a) f h = h a

module _ (k : Codecs) where
  -- Every node made of a sound authority is sound.
  from_authority :
      (body : Text) (f : Auth → Option Proxy)
      → ((a : Auth) → is_port a.port ≡ true → all_of (f a) ≡ true)
      → all_of (authority k body >>= f) ≡ true
  unfolding all_of split_authority
  from_authority body f h = elim (Option-cases (authority k body)) [
    | inl n ↦ rw n
    | inr (a, e) ↦
        let (low, high) = split_authority-port k.decode_percent body a e in
        rw e (h a (ground (arith, low, high)))
  ]

  apply_ss_plugin-sound :
      (raw : Option Text) (p : Proxy) → sound p ≡ true → sound (apply_ss_plugin raw p) ≡ true
  unfolding apply_ss_plugin
  apply_ss_plugin-sound none p h = h
  apply_ss_plugin-sound (some []) p h = h
  apply_ss_plugin-sound (some (c ∷ s)) p h = h

  vless_sound : (body : Text) (name : Option Text) → all_of (parse_vless k body name) ≡ true
  unfolding parse_vless all_of is_linked
  vless_sound body name = from_authority body _ (λ a h. ground (arith, h))

  trojan_sound : (body : Text) (name : Option Text) → all_of (parse_trojan k body name) ≡ true
  unfolding parse_trojan all_of is_linked
  trojan_sound body name = from_authority body _ (λ a h. ground (arith, h))

  hy2_sound : (body : Text) (name : Option Text) → all_of (parse_hy2 k body name) ≡ true
  unfolding parse_hy2 all_of is_linked
  hy2_sound body name = from_authority body _ (λ a h. ground (arith, h))

  tuic_sound : (body : Text) (name : Option Text) → all_of (parse_tuic k body name) ≡ true
  unfolding parse_tuic all_of is_linked
  tuic_sound body name = from_authority body _ (λ a h. ground (arith, h))

  anytls_sound : (body : Text) (name : Option Text) → all_of (parse_anytls k body name) ≡ true
  unfolding parse_anytls all_of is_linked
  anytls_sound body name = from_authority body _ (λ a h. ground (arith, h))

  socks_sound :
      (body : Text) (name : Option Text) (t : ProxyType) (secure : Bool)
      → is_linked t ≡ true
      → all_of (parse_socks k body name t secure) ≡ true
  unfolding parse_socks all_of
  socks_sound body name t secure l = from_authority body _ (λ a h. ground (arith, h, l))

  ss_node-sound :
      (name : Option Text) (a : Auth) → is_port a.port ≡ true → sound (ss_node k name a) ≡ true
  unfolding ss_node is_linked
  ss_node-sound name a h = apply_ss_plugin-sound (param a (lit "plugin")) _ (ground (arith, h))

  sip002_sound :
      (name : Option Text) (a : Auth) → is_port a.port ≡ true → all_of (sip002 k name a) ≡ true
  unfolding sip002 all_of
  sip002_sound name a h = ground (arith, ss_node-sound name a h)

  either_sound :
      (o q : Option Proxy) → all_of o ≡ true → all_of q ≡ true → all_of (or_else o q) ≡ true
  either_sound none q h j = j
  either_sound (some p) q h j = h

  legacy_sound :
      (name : Option Text) (bytes : Option (List ℕ))
      → all_of
          (bytes >>= (λ b. authority k (k.from_utf8_lossy b)) >>= (λ a. some (ss_node k name a)))
        ≡ true
  unfolding all_of
  legacy_sound name none = refl
  legacy_sound name (some b) =
      from_authority (k.from_utf8_lossy b) (λ a. some (ss_node k name a)) (ss_node-sound name)

  ss_sound : (body : Text) (name : Option Text) → all_of (parse_ss k body name) ≡ true
  unfolding parse_ss
  ss_sound body name =
      either_sound _ _ (from_authority body (sip002 k name) (sip002_sound name))
        (legacy_sound name (b64_decode k body))

  vmess_node_sound : (name : Option Text) (v : Json) → all_of (vmess_node name v) ≡ true
  unfolding vmess_node all_of is_linked
  vmess_node_sound name v = ground arith

  vmess_sound : (body : Text) (name : Option Text) → all_of (parse_vmess k body name) ≡ true
  unfolding parse_vmess
  vmess_sound body name = bind _ _ (vmess_node_sound name)

  scheme_sound :
      (scheme body : Text) (name : Option Text) → all_of (parse_scheme k scheme body name) ≡ true
  unfolding parse_scheme
  scheme_sound scheme body name = choose _ _ _ (vmess_sound body name) (
      choose _ _ _ (vless_sound body name) (
        choose _ _ _ (trojan_sound body name) (
          choose _ _ _ (ss_sound body name) (
            choose _ _ _ none_sound (
              choose _ _ _ (anytls_sound body name) (
                choose _ _ _ (hy2_sound body name) (
                  choose _ _ _ (tuic_sound body name) (
                    choose _ _ _ (socks_sound body name socks5 false socks5_linked) (
                      choose _ _ _ (socks_sound body name http false http_linked) (
                        choose _ _ _ (socks_sound body name http true http_linked)
                          none_sound))))))))))

  uri_sound : (line : Text) → all_of (parse_uri k line) ≡ true
  unfolding parse_uri
  uri_sound line = bind (split_scheme (trim line)) _ (λ parts.
      scheme_sound (k.unicode.str_lowercase parts.0) _ (name_of k (split_once 35 parts.1)))

  -- Whatever line is read and whatever the libraries decode, a node from a share link has a port from
  -- 1 to 65535 and a protocol that has links, so none that every export leaves out.
  pub parse_uri-is_linked :
      (line : Text) (p : Proxy)
      → parse_uri k line ≡ some p
      → (0 < p.port) × (p.port ≤ 65535) × (is_linked p.type_ ≡ true)
  unfolding all_of
  parse_uri-is_linked line p e =
      let h : sound p ≡ true = subst (λ o. all_of o ≡ true) e (uri_sound line) in ground (arith, h)
