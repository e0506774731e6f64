-- ===== src/Export/V2ray.antt =====
-- `v2ray_outbound` and `to_v2ray_json` (core/src/export.rs): the outbounds of a V2Ray configuration.
-- `json!` makes an object with the members that are written.
pub mod Kept
pub mod Reimport
pub mod Stream
use mathlib.Core.List.{filter_map}
use sub_hub.Common.{
  false, ◌||◌, Option, none, some, List, [], Text, lit, text_eq, unwrap_or, if◌then◌else◌,
}
use sub_hub.Model.Json.{
  items, Json, Members, end, member, object, array, nil, cons, bool, string, number, unsigned,
  insert, string_items,
}
use sub_hub.Model.Proxy.{Proxy, ProxyType, ss, trojan, vmess, vless, any_tls, has}
use sub_hub.Export.Plugin.{ss_method}
use sub_hub.Export.Clash.{insert_some, text_value}

abbrev pub texts_value : Option (List Text) → Option Json
texts_value none = none
texts_value (some ts) = some (array (string_items ts))

abbrev pub insecure : Proxy → Json
insecure p = bool (unwrap_or p.skip_cert_verify false)

unfoldable pub reality_settings : Proxy → Members
unfolding insert_some
reality_settings p = insert_some (lit "shortId") (text_value p.reality_short_id) (
    insert_some (lit "publicKey") (text_value p.reality_public_key) (
      insert_some (lit "serverName") (text_value p.sni) (
        member (lit "fingerprint") (string (unwrap_or p.fingerprint (lit "chrome")))
          (member (lit "allowInsecure") (insecure p) end))))

unfoldable pub tls_settings : Proxy → Members
unfolding insert_some
tls_settings p = insert_some (lit "alpn") (texts_value p.alpn) (
    insert_some (lit "serverName") (text_value p.sni)
      (member (lit "allowInsecure") (insecure p) end))

abbrev pub insert_pair : Option (Text × Json) → Members → Members
insert_pair none m = m
insert_pair (some (k, v)) m = insert k v m

-- The security layer: its name, and its object under its key.
unfoldable pub security_name : Proxy → Text
security_name p =
    if p.reality then lit "reality" else if unwrap_or p.tls false then lit "tls" else lit "none"

unfoldable pub security_settings : Proxy → Option (Text × Json)
unfolding reality_settings tls_settings
security_settings p =
    if p.reality
    then some (lit "realitySettings", object (reality_settings p))
    else if unwrap_or p.tls false
    then some (lit "tlsSettings", object (tls_settings p))
    else none

abbrev pub net_of : Proxy → Text
net_of p = unwrap_or p.network (lit "tcp")

unfoldable pub ws_settings : Proxy → Members
unfolding insert_some
ws_settings p =
    insert_some (lit "headers")
      (elim p.host as (λ _. Option Json) [
        | none ↦ none
        | some h ↦ some (object (member (lit "Host") (string h) end))
      ])
      (insert_some (lit "path") (text_value p.path) end)

unfoldable pub http_settings : Proxy → Members
unfolding insert_some
http_settings p =
    insert_some (lit "host")
      (elim p.host as (λ _. Option Json) [
        | none ↦ none
        | some h ↦ some (array (cons (string h) nil))
      ])
      (insert_some (lit "path") (text_value p.path) end)

abbrev pub grpc_settings : Option Text → Option (Text × Json)
grpc_settings none = none
grpc_settings (some svc) = some (
  lit "grpcSettings",
  object (member (lit "serviceName") (string svc) (member (lit "multiMode") (bool false) end)),
)

-- The object of the transport, under its key.
unfoldable pub transport_settings : Proxy → Option (Text × Json)
unfolding ws_settings http_settings
transport_settings p =
    let net = net_of p in
    if text_eq net (lit "ws")
    then some (lit "wsSettings", object (ws_settings p))
    else if text_eq net (lit "grpc")
    then grpc_settings p.service_name
    else if text_eq net (lit "h2") || text_eq net (lit "http")
    then some (lit "httpSettings", object (http_settings p))
    else none

unfoldable pub v2ray_stream : Proxy → Json
unfolding security_name security_settings transport_settings
v2ray_stream p = object (
    insert_pair (transport_settings p) (
      insert_pair (security_settings p) (
        insert (lit "security") (string (security_name p))
          (member (lit "network") (string (net_of p)) end))))

abbrev one : Members → Json
one m = array (cons (object m) nil)

abbrev endpoint : Proxy → Members → Members
endpoint p m =
    member (lit "address") (string p.server) (member (lit "port") (number (unsigned p.port)) m)

-- An outbound of a protocol, with its settings.
abbrev outbound : Proxy → Text → Json → Members → Json
outbound p protocol settings m = object (
    member (lit "tag") (string p.name)
      (member (lit "protocol") (string protocol) (member (lit "settings") settings m)))

abbrev streamed : Json → Members
streamed stream = member (lit "streamSettings") stream end

-- The node at `settings.vnext`, with its one user.
abbrev vnext : Proxy → Members → Json
vnext p user =
    object (member (lit "vnext") (one (endpoint p (member (lit "users") (one user) end))) end)

abbrev servers : Proxy → Members → Json
servers p credentials = object (member (lit "servers") (one (endpoint p credentials)) end)

unfoldable pub outbound_of : ProxyType → Proxy → Option Json
unfolding v2ray_stream ss_method
outbound_of vmess p = some (
    outbound p (lit "vmess")
      (vnext p (
        member (lit "id") (string (unwrap_or p.uuid [])) (
          member (lit "alterId") (number (unsigned (unwrap_or p.alter_id 0)))
            (member (lit "security") (string (unwrap_or p.cipher (lit "auto"))) end))))
      (streamed (v2ray_stream p)))
outbound_of vless p = some (
    outbound p (lit "vless")
      (vnext p (
        member (lit "id") (string (unwrap_or p.uuid [])) (
          member (lit "flow") (string (unwrap_or p.flow []))
            (member (lit "encryption") (string (lit "none")) end))))
      (streamed (v2ray_stream p)))
outbound_of trojan p = some (
    outbound p (lit "trojan")
      (servers p (
        member (lit "password") (string (unwrap_or p.password []))
          (member (lit "flow") (string (unwrap_or p.flow [])) end)))
      (streamed (v2ray_stream p)))
outbound_of ss p =
    if has p.plugin
    then none
    else some (
        outbound p (lit "shadowsocks")
          (servers p (
            member (lit "method") (string (ss_method p))
              (member (lit "password") (string (unwrap_or p.password [])) end)))
          end)
outbound_of any_tls p = none
outbound_of _ p = none

abbrev pub v2ray_outbound : Proxy → Option Json
v2ray_outbound p = outbound_of p.type_ p

-- The array that is written; the text of it is not modelled.
unfoldable pub to_v2ray_json : List Proxy → Json
unfolding outbound_of
to_v2ray_json ps = array (items (filter_map v2ray_outbound ps))
