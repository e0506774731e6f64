-- ===== src/Parse/Links.antt =====
-- The share links of the other protocols, and `parse_uri` (core/src/parse.rs).
pub mod Ports
use sub_hub.Common.{
  Bool, true, false, ◌||◌, Option, none, some, List, [], ◌∷◌, Text, lit, text_eq, is_empty,
  non_empty, or_else, unwrap_or, if◌then◌else◌, ◌>>=◌, trim, split_once,
}
use sub_hub.Common.Lookup.{lookup_last}
use sub_hub.Model.Json.{member, end, object, string}
use sub_hub.Model.Proxy.{Proxy, ProxyType, ss, hysteria2, tuic, socks5, http, any_tls}
use sub_hub.Parse.Authority.{Auth, split_authority, rsplit_once}
use sub_hub.Parse.Fields.{parse_alpn, parse_bool, parse_mbps}
use sub_hub.Parse.Uri.{
  Codecs, b64_decode, param, either, flag, linked_node, authority, split_scheme, parse_vmess,
  parse_vless, parse_trojan,
}

-- The closure `bool_query`.
abbrev pub first_key : Auth → List Text → Option Text
first_key a [] = none
first_key a (key ∷ keys) = or_else (param a key) (first_key a keys)

abbrev pub bool_query : Auth → List Text → Option Bool
unfolding parse_bool
bool_query a keys = first_key a keys >>= (λ v. some (parse_bool v))

unfoldable pub apply_ss_plugin : Option Text → Proxy → Proxy
apply_ss_plugin raw p = elim (non_empty raw) [
  | none ↦ p
  | some t ↦
      let (name, opts) = unwrap_or (split_once 59 t) (t, []) in
      record p {
        plugin = some name;
        plugin_opts = if is_empty opts then p.plugin_opts else some opts;
      }
]

-- The user part up to its last colon, and the password.
abbrev pub user_and_password : Text → Option Text × Text
unfolding rsplit_once
user_and_password info = elim (rsplit_once 58 info) [
  | none ↦ (none, info)
  | some (u, pass) ↦ (some u, pass)
]

module _ (k : Codecs) where
  unfoldable pub decode_ss_userinfo : Text → Text × Text
  unfolding b64_decode
  decode_ss_userinfo u =
      unwrap_or
        (or_else (b64_decode k u >>= (λ bytes. split_once 58 (k.from_utf8_lossy bytes)))
          (split_once 58 u))
        ([], u)

  unfoldable pub ss_node : Option Text → Auth → Proxy
  unfolding decode_ss_userinfo apply_ss_plugin lookup_last
  ss_node name a =
      let (method, password) = decode_ss_userinfo a.userinfo in
      apply_ss_plugin (param a (lit "plugin"))
        (record (linked_node name a ss) { method = some method; password = some password })

  -- SIP002, if its user part gives a method.
  unfoldable pub sip002 : Option Text → Auth → Option Proxy
  unfolding ss_node
  sip002 name a =
      if is_empty a.userinfo || is_empty (decode_ss_userinfo a.userinfo).0
      then none
      else some (ss_node name a)

  unfoldable pub parse_ss : Text → Option Text → Option Proxy
  unfolding sip002 ss_node split_authority b64_decode
  parse_ss body name = or_else (authority k body >>= sip002 name) (
      b64_decode k body
      >>= (λ bytes. authority k (k.from_utf8_lossy bytes))
      >>= (λ a. some (ss_node name a)))

  -- SSR is dropped.
  abbrev pub parse_ssr : Text → Option Text → Option Proxy
  parse_ssr body name = none

  unfoldable pub parse_hy2 : Text → Option Text → Option Proxy
  unfolding split_authority parse_alpn parse_mbps lookup_last
  parse_hy2 body name = do
    a ← authority k body
    some (record (linked_node name a hysteria2) {
      password = some (user_and_password a.userinfo).1;
      tls = some true;
      sni = param a (lit "sni");
      fingerprint = param a (lit "fp");
      obfs = param a (lit "obfs");
      obfs_password = either a (lit "obfs-password") (lit "obfs_password");
      alpn = parse_alpn (param a (lit "alpn"));
      up_mbps = param a (lit "up") >>= parse_mbps k.doubles;
      down_mbps = param a (lit "down") >>= parse_mbps k.doubles;
      skip_cert_verify = flag (either a (lit "insecure") (lit "allowinsecure"));
    })

  unfoldable pub parse_tuic : Text → Option Text → Option Proxy
  unfolding split_authority parse_alpn lookup_last
  parse_tuic body name = do
    a ← authority k body
    some (record (linked_node name a tuic) {
      uuid = (user_and_password a.userinfo).0;
      password = some (user_and_password a.userinfo).1;
      tls = some true;
      sni = param a (lit "sni");
      fingerprint = param a (lit "fp");
      alpn = parse_alpn (param a (lit "alpn"));
      congestion_control = either a (lit "congestion_control") (lit "congestion-controller");
      udp_relay_mode = either a (lit "udp_relay_mode") (lit "udp-relay-mode");
      udp_over_stream = bool_query a (lit "udp_over_stream" ∷ lit "udp-over-stream" ∷ []);
      zero_rtt_handshake = bool_query a (
          lit "zero_rtt_handshake"
          ∷ lit "zero-rtt-handshake"
          ∷ lit "reduce_rtt"
          ∷ lit "reduce-rtt"
          ∷ []);
      skip_cert_verify = flag (either a (lit "insecure") (lit "allowinsecure"));
    })

  unfoldable pub parse_anytls : Text → Option Text → Option Proxy
  unfolding split_authority lookup_last
  parse_anytls body name = do
    a ← authority k body
    some (record (linked_node name a any_tls) {
      password = some a.userinfo;
      network = either a (lit "type") (lit "network");
      tls = some true;
      sni = param a (lit "sni");
      fingerprint = param a (lit "fp");
      skip_cert_verify = flag (param a (lit "insecure"));
    })

  -- The user and the password of a SOCKS or HTTP link; a user part without a colon is a password.
  abbrev pub with_login : Text → Proxy → Proxy
  unfolding rsplit_once
  with_login info p = if is_empty info then p else elim (rsplit_once 58 info) [
    | none ↦ record p { password = some info }
    | some (u, pass) ↦ record p {
      extra = some (object (member (lit "user") (string u) end));
      password = some pass;
    }
  ]

  unfoldable pub parse_socks : Text → Option Text → ProxyType → Bool → Option Proxy
  unfolding split_authority
  parse_socks body name t secure = do
    a ← authority k body
    let p = with_login a.userinfo (linked_node name a t)
    some (if secure then record p { tls = some true } else p)

  abbrev pub name_of : Option (Text × Text) → Option Text
  name_of none = none
  name_of (some (b, n)) = some (k.decode_percent n)

  unfoldable pub parse_scheme : Text → Text → Option Text → Option Proxy
  unfolding parse_vmess parse_vless parse_trojan parse_ss parse_hy2 parse_tuic parse_anytls
      parse_socks
  parse_scheme scheme body name =
      if text_eq scheme (lit "vmess")
      then parse_vmess k body name
      else if text_eq scheme (lit "vless")
      then parse_vless k body name
      else if text_eq scheme (lit "trojan")
      then parse_trojan k body name
      else if text_eq scheme (lit "ss")
      then parse_ss body name
      else if text_eq scheme (lit "ssr")
      then parse_ssr body name
      else if text_eq scheme (lit "anytls")
      then parse_anytls body name
      else if text_eq scheme (lit "hysteria2")
          || text_eq scheme (lit "hy2")
          || text_eq scheme (lit "hysteria")
      then parse_hy2 body name
      else if text_eq scheme (lit "tuic")
      then parse_tuic body name
      else if text_eq scheme (lit "socks5") || text_eq scheme (lit "socks")
      then parse_socks body name socks5 false
      else if text_eq scheme (lit "http")
      then parse_socks body name http false
      else if text_eq scheme (lit "https")
      then parse_socks body name http true
      else none

  unfoldable pub parse_uri : Text → Option Proxy
  unfolding split_scheme parse_scheme
  parse_uri line = do
    parts ← split_scheme (trim line)
    let body = split_once 35 parts.1
    parse_scheme (k.unicode.str_lowercase parts.0) (unwrap_or (body >>= (λ (b, n). some b)) parts.1)
        (name_of body)
