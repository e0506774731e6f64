-- ===== src/Export/Surge.antt =====
-- `to_surge` (core/src/export.rs): the lines of the `[Proxy]` section of Surge.
pub mod Lines
pub mod OneLine
pub mod Total
use sub_hub.Common.{
  ℕ, Bool, true, false, ◌&&◌, ◌||◌, Option, none, some, List, [], ◌∷◌, ◌++◌, map, Text, lit,
  text_eq, is_empty, contains, unwrap_or, if◌then◌else◌, to_ascii_lowercase, ◌==◌,
}
use sub_hub.Common.Decimal.{decimal}
use sub_hub.Model.Proxy.{
  Proxy, ProxyType, ss, trojan, vmess, vless, hysteria2, tuic, socks5, http, wireguard, any_tls,
  other, has,
}
use sub_hub.Export.Clash.{extra_user}
use sub_hub.Export.Plugin.{ss_plugin}

-- The characters that would end a name or a line.
abbrev pub is_special : ℕ → Bool
is_special c = c == 13 || c == 10 || c == 44 || c == 61

abbrev pub safe_char : ℕ → ℕ
safe_char c = if is_special c then 95 else c

unfoldable pub surge_safe : Text → Text
surge_safe = map safe_char

abbrev pub is_plain_net : Text → Bool
is_plain_net net = is_empty net || text_eq net (lit "tcp") || text_eq net (lit "ws")

abbrev pub obfs_named : Option (Text × List (Text × Text)) → Bool
obfs_named none = true
obfs_named (some (name, opts)) = contains (to_ascii_lowercase name) (lit "obfs")

abbrev pub known_obfs : Text → Bool
known_obfs t = text_eq t (lit "salamander") || text_eq t (lit "gecko")

unfoldable pub supported : ProxyType → Proxy → Bool
unfolding ss_plugin
supported ss p = obfs_named (ss_plugin p)
supported vmess p = is_plain_net (unwrap_or p.network (lit "tcp"))
supported trojan p = is_plain_net (unwrap_or p.network (lit "tcp"))
supported vless p = false
supported wireguard p = false
supported hysteria2 p =
    let obfs = unwrap_or p.obfs [] in
    is_empty obfs || (known_obfs (to_ascii_lowercase obfs) && has p.obfs_password)
supported tuic p = true
supported socks5 p = true
supported http p = true
supported any_tls p = true
supported other p = false

abbrev pub surge_supported : Proxy → Bool
surge_supported p = supported p.type_ p

-- `, key=value`.
abbrev pub param : Text → Text → Text
param key value = lit ", " ++ key ++ 61 ∷ value

-- The same with a safe value, if there is one.
abbrev pub opt_param : Text → Option Text → Text
unfolding surge_safe
opt_param key none = []
opt_param key (some t) = param key (surge_safe t)

abbrev pub ws_headers : Option Text → Text
unfolding surge_safe
ws_headers none = []
ws_headers (some h) = lit ", ws-headers=Host:" ++ surge_safe h

-- `push_surge_ws`.
unfoldable pub surge_ws : Proxy → Text
surge_ws p =
    if text_eq (unwrap_or p.network []) (lit "ws")
    then lit ", ws=true" ++ opt_param (lit "ws-path") p.path ++ ws_headers p.host
    else []

-- A list of one.
abbrev pub single : Option (List Text) → Option Text
single none = none
single (some []) = none
single (some (t ∷ [])) = some t
single (some (t ∷ u ∷ ts)) = none

-- `push_surge_tls`.
unfoldable pub surge_tls : Proxy → Text
surge_tls p =
    opt_param (lit "sni") p.sni
    ++ (if unwrap_or p.skip_cert_verify false then lit ", skip-cert-verify=true" else [])
    ++ opt_param (lit "tls-fingerprint") p.fingerprint
    ++ opt_param (lit "alpn") (single p.alpn)

abbrev pub second : Option Text → Text
unfolding surge_safe
second none = []
second (some pw) = lit ", " ++ surge_safe pw

unfoldable pub surge_positional_auth : Proxy → Text
unfolding surge_safe
surge_positional_auth p =
    let user = unwrap_or (extra_user p) [] in
    if is_empty user then [] else lit ", " ++ surge_safe user ++ second p.password

-- `name = keyword, server, port`.
unfoldable pub line_head : Text → Proxy → Text
unfolding surge_safe decimal
line_head keyword p =
    surge_safe p.name ++ lit " = " ++ keyword ++ lit ", " ++ p.server ++ lit ", " ++ decimal p.port

-- `opts.iter().find(|(k, _)| …)`.
unfoldable pub option_of : Text → Text → List (Text × Text) → Option Text
option_of k j [] = none
option_of k j ((key, v) ∷ opts) =
    if text_eq key k || text_eq key j then some v else option_of k j opts

abbrev pub obfs_params : Option (Text × List (Text × Text)) → Text
unfolding option_of
obfs_params none = []
obfs_params (some (name, opts)) =
    opt_param (lit "obfs") (option_of (lit "obfs") (lit "mode") opts)
    ++ opt_param (lit "obfs-host") (option_of (lit "obfs-host") (lit "host") opts)

abbrev pub obfs_key : Text → Text
obfs_key obfs =
    if text_eq (to_ascii_lowercase obfs) (lit "gecko")
    then lit "gecko-password"
    else lit "salamander-password"

abbrev pub obfs_secret : Proxy → Option Text → Text
obfs_secret p none = []
obfs_secret p (some obfs) = param (obfs_key obfs) (unwrap_or p.obfs_password [])

abbrev pub bandwidth : Option ℕ → Text
unfolding decimal
bandwidth none = []
bandwidth (some n) = param (lit "download-bandwidth") (decimal n)

abbrev pub password : Proxy → Text
password p = param (lit "password") (unwrap_or p.password [])
