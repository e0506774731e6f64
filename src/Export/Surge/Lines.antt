-- ===== src/Export/Surge/Lines.antt =====
-- The line of a node, and `to_surge` (core/src/export.rs).
use sub_hub.Common.{
  false, ◌||◌, Option, none, some, List, [], ◌∷◌, ◌++◌, Text, lit, starts_with, unwrap_or, join,
  if◌then◌else◌, ◌>>=◌, ◌==◌, non_empty,
}
use sub_hub.Model.Proxy.{
  Proxy, ProxyType, ss, trojan, vmess, vless, hysteria2, tuic, socks5, http, wireguard, any_tls,
  other,
}
use sub_hub.Export.Plugin.{ss_method, ss_plugin}
use sub_hub.Export.Names.{claim_name}
use sub_hub.Export.Surge.{
  line_head, param, opt_param, password, surge_tls, surge_ws, obfs_params, obfs_secret, bandwidth,
  surge_positional_auth, surge_supported,
}

unfoldable pub line_of : ProxyType → Proxy → Option Text
unfolding line_head surge_tls surge_ws surge_positional_auth ss_method ss_plugin
line_of ss p = some (
    line_head (lit "ss") p
    ++ param (lit "encrypt-method") (ss_method p)
    ++ password p
    ++ obfs_params (ss_plugin p))
line_of trojan p = some (line_head (lit "trojan") p ++ password p ++ surge_tls p ++ surge_ws p)
line_of vmess p = some (
    line_head (lit "vmess") p
    ++ param (lit "username") (unwrap_or p.uuid [])
    ++ opt_param (lit "encrypt-method") p.cipher
    ++ (if unwrap_or p.tls false then lit ", tls=true" else [])
    ++ surge_tls p
    ++ surge_ws p)
line_of hysteria2 p = some (
    line_head (lit "hysteria2") p
    ++ password p
    ++ obfs_secret p (non_empty p.obfs)
    ++ bandwidth p.down_mbps
    ++ surge_tls p)
line_of tuic p = some (
    line_head (lit "tuic") p
    ++ param (lit "uuid") (unwrap_or p.uuid [])
    ++ password p
    ++ lit ", version=5")
line_of any_tls p = some (line_head (lit "anytls") p ++ password p ++ surge_tls p)
line_of socks5 p = some (
    line_head (if unwrap_or p.tls false then lit "socks5-tls" else lit "socks5") p
    ++ surge_positional_auth p)
line_of http p = some (
    line_head (if unwrap_or p.tls false || p.port == 443 then lit "https" else lit "http") p
    ++ surge_positional_auth p)
line_of vless p = none
line_of wireguard p = none
line_of other p = none

abbrev pub surge_line : Proxy → Option Text
unfolding line_of
surge_line p = if surge_supported p then line_of p.type_ p else none

unfoldable pub surge_lines : List Proxy → List Text
unfolding line_of
surge_lines [] = []
surge_lines (p ∷ ps) = elim (surge_line p) [ none ↦ surge_lines ps | some l ↦ l ∷ surge_lines ps ]

-- `line.split_once(" = ")`.
abbrev without_separator : Text → Text
without_separator (a ∷ b ∷ c ∷ s) = s
without_separator s = s

unfoldable pub split_line : Text → Option (Text × Text)
unfolding starts_with
split_line [] = none
split_line (c ∷ s) =
    if starts_with (c ∷ s) (lit " = ")
    then some ([], without_separator (c ∷ s))
    else elim (split_line s) [ none ↦ none | some (a, b) ↦ some (c ∷ a, b) ]

-- `seen_names` starts empty; no result would mean that the fuel of a round ran out.
unfoldable pub unique_lines : List Text → List Text → Option (List Text)
unfolding split_line claim_name
unique_lines seen [] = some []
unique_lines seen (l ∷ ls) = elim (split_line l) [
  | none ↦ unique_lines seen ls >>= (λ out. some (l ∷ out))
  | some (name, rest) ↦ elim (claim_name seen name) [
    | none ↦ none
    | some n ↦ unique_lines (n ∷ seen) ls >>= (λ out. some ((n ++ lit " = " ++ rest) ∷ out))
  ]
]

unfoldable pub to_surge : List Proxy → Option Text
unfolding surge_lines unique_lines
to_surge ps = unique_lines [] (surge_lines ps) >>= (λ out. some (join 10 out))
