-- ===== src/Model/Fingerprint.antt =====
-- `Proxy::fingerprint` (core/src/model.rs): the identity by which nodes are deduplicated.
pub mod Separation
pub mod Collision
use sub_hub.Common.{
  ℕ, Bool, true, false, not, Option, none, some, List, [], ◌∷◌, ◌++◌, Text, lit, unwrap_or,
  non_empty, join, replace_char, if◌then◌else◌,
}
use sub_hub.Common.Decimal.{decimal}
use sub_hub.Model.Proxy.{
  Proxy, ProxyType, ss, trojan, vmess, vless, hysteria2, tuic, socks5, http, wireguard, any_tls,
  other, as_str, ss_method_value,
}

-- The separator `|`, and the `#` that stands for it inside a field.
abbrev pub bar : ℕ
bar = 0x7C

unfoldable pub esc : Text → Text
esc = replace_char bar 0x23

-- The closures `s`, `b` and `n`.
abbrev pub esc_option : Option Text → Text
esc_option o = esc (unwrap_or o [])

abbrev pub bool_text : Option Bool → Text
bool_text none = []
bool_text (some true) = lit "1"
bool_text (some false) = lit "0"

abbrev pub number_text : Option ℕ → Text
number_text o = decimal (unwrap_or o 0)

abbrev pub tunnel_credential : Proxy → List Text
tunnel_credential p =
    esc_option p.uuid
    ∷ esc_option p.network
    ∷ esc_option p.sni
    ∷ bool_text p.tls
    ∷ esc_option p.path
    ∷ number_text p.alter_id
    ∷ esc_option p.cipher
    ∷ esc_option p.flow
    ∷ []

abbrev pub password_credential : Proxy → List Text
password_credential p =
    esc_option p.password
    ∷ esc_option p.sni
    ∷ esc_option p.host
    ∷ esc_option p.network
    ∷ esc_option p.path
    ∷ []

-- The fields of `cred`, in front of the optional parts.
unfoldable pub credential : ProxyType → Proxy → List Text
credential ss p = esc (unwrap_or (ss_method_value p) []) ∷ esc_option p.password ∷ []
credential vmess p = tunnel_credential p
credential vless p = tunnel_credential p
credential tuic p = tunnel_credential p
credential trojan p = password_credential p
credential hysteria2 p = password_credential p
credential socks5 p = password_credential p
credential http p = password_credential p
credential any_tls p = password_credential p
credential _ p = esc_option p.uuid ∷ password_credential p

-- An optional part `key=value`, present only if the value is not empty.
abbrev pub tagged : Text → Option Text → List Text
tagged key o = elim (non_empty o) [ none ↦ [] | some v ↦ (key ++ esc v) ∷ [] ]

abbrev pub tagged_number : Text → Option ℕ → List Text
tagged_number key none = []
tagged_number key (some n) = (key ++ decimal n) ∷ []

-- An optional part that is present even if the value is empty.
abbrev pub tagged_any : Text → Option Text → List Text
tagged_any key none = []
tagged_any key (some v) = (key ++ esc v) ∷ []

abbrev pub tagged_bool : Text → Option Bool → List Text
tagged_bool key none = []
tagged_bool key (some b) = (key ++ bool_text (some b)) ∷ []

abbrev pub reality_parts : Proxy → List Text
reality_parts p =
    if p.reality
    then lit "reality" ∷ tagged (lit "pk=") p.reality_public_key
      ++ tagged (lit "sid=") p.reality_short_id
    else []

abbrev pub tunnel_parts : Proxy → List Text
tunnel_parts p = tagged (lit "h=") p.host ++ tagged (lit "svc=") p.service_name ++ reality_parts p

abbrev pub alpn_parts : Option (List Text) → List Text
alpn_parts none = []
alpn_parts (some []) = []
alpn_parts (some (a ∷ as')) = (lit "alpn=" ++ esc (join 0x2C (a ∷ as'))) ∷ []

abbrev pub tuic_parts : Proxy → List Text
tuic_parts p =
    tagged_any (lit "cc=") p.congestion_control
    ++ tagged_any (lit "urm=") p.udp_relay_mode
    ++ tagged_bool (lit "uos=") p.udp_over_stream
    ++ tagged_bool (lit "zrtt=") p.zero_rtt_handshake

-- The vector `extra`.
unfoldable pub extra_parts : ProxyType → Proxy → List Text
extra_parts vmess p = tunnel_parts p ++ alpn_parts p.alpn
extra_parts vless p = tunnel_parts p ++ alpn_parts p.alpn
extra_parts tuic p = tunnel_parts p ++ alpn_parts p.alpn ++ tuic_parts p
extra_parts ss p =
    tagged (lit "plugin=") p.plugin ++ tagged (lit "opts=") p.plugin_opts ++ alpn_parts p.alpn
extra_parts hysteria2 p =
    tagged (lit "obfs=") p.obfs
    ++ tagged (lit "opw=") p.obfs_password
    ++ tagged_number (lit "up=") p.up_mbps
    ++ tagged_number (lit "down=") p.down_mbps
    ++ alpn_parts p.alpn
extra_parts _ p = alpn_parts p.alpn

-- `if !extra.is_empty() { cred.push('|'); cred.push_str(&extra.join("|")) }`.
abbrev pub with_extra : Text → List Text → Text
with_extra cred [] = cred
with_extra cred (e ∷ es) = cred ++ bar ∷ join bar (e ∷ es)

unfoldable pub fingerprint : Proxy → Text
fingerprint p = join bar (
    as_str p.type_
    ∷ esc p.server
    ∷ decimal p.port
    ∷ esc p.name
    ∷ with_extra (join bar (credential p.type_ p)) (extra_parts p.type_ p)
    ∷ [])
