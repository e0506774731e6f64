-- ===== src/Parse/V2ray.antt =====
-- `v2ray_outbound` and `parse_v2ray_json` (core/src/parse.rs): a node from an outbound of a V2Ray or
-- Xray configuration.
use sub_hub.Common.{
  true, ◌||◌, Option, none, some, List, [], Text, lit, text_eq, is_some, non_empty, or_else,
  unwrap_or, if◌then◌else◌, ◌>>=◌,
}
use sub_hub.Model.Json.{filter_items, Json, get, as_string, as_bool, as_array, first_of, text_at}
use sub_hub.Model.Proxy.{Proxy, ProxyType, ss, trojan, vmess, vless, new}
use sub_hub.Parse.Fields.{Doubles, port_from_json, u32_from, yaml_string_list}

abbrev pub v2ray_type : Text → Option ProxyType
v2ray_type proto =
    if text_eq proto (lit "vmess")
    then some vmess
    else if text_eq proto (lit "vless")
    then some vless
    else if text_eq proto (lit "trojan")
    then some trojan
    else if text_eq proto (lit "shadowsocks")
    then some ss
    else none

-- The closure `text`: a text, or the first of an array.
abbrev pub text_or_first : Json → Option Text
text_or_first x = or_else (as_string x) (first_of x >>= as_string)

abbrev pub text_in : Option Json → Text → Option Text
text_in v key = v >>= get key >>= text_or_first

abbrev pub host_header : Option Json → Option Text
host_header v = v >>= get (lit "headers") >>= get (lit "Host") >>= text_or_first

-- The text at a key of the TLS settings, or else of the REALITY settings.
abbrev pub either_text : Option Json → Option Json → Text → Option Text
either_text tls reality key =
    or_else (tls >>= get key >>= as_string) (reality >>= get key >>= as_string)

-- `Value::Array` or `Value::String`, as in a Clash configuration.
abbrev pub alpn_of : Option Json → Option (List Text)
alpn_of tls = yaml_string_list (tls >>= get (lit "alpn"))

-- What `streamSettings` says of the transport and the security layer.
unfoldable pub with_stream : Json → Proxy → Proxy
unfolding text_at get yaml_string_list
with_stream st p =
    let sec = unwrap_or (text_at (lit "security") st) [] in
    let ws = get (lit "wsSettings") st in
    let http = or_else (get (lit "httpSettings") st) (get (lit "xhttpSettings") st) in
    let ns = get (lit "networkSettings") st in
    let tls = get (lit "tlsSettings") st in
    let reality = get (lit "realitySettings") st in
    let on = text_eq sec (lit "reality") || is_some reality in
    record p {
      network = text_at (lit "network") st;
      path =
          or_else (text_in ws (lit "path"))
            (or_else (text_in http (lit "path")) (text_in ns (lit "path")));
      host = or_else (host_header ws) (or_else (text_in http (lit "host")) (host_header ns));
      service_name =
          or_else (text_in (get (lit "grpcSettings") st) (lit "serviceName"))
            (text_in ns (lit "serviceName"));
      sni = either_text tls reality (lit "serverName");
      skip_cert_verify =
          or_else (tls >>= get (lit "allowInsecure") >>= as_bool)
            (reality >>= get (lit "allowInsecure") >>= as_bool);
      alpn = alpn_of tls;
      fingerprint = either_text tls reality (lit "fingerprint");
      reality = if on then true else p.reality;
      reality_public_key =
          if on
          then reality >>= (λ r. or_else (get (lit "publicKey") r) (get (lit "id") r)) >>= as_string
          else p.reality_public_key;
      reality_short_id =
          if on then reality >>= get (lit "shortId") >>= as_string else p.reality_short_id;
      tls = some (if on then true else text_eq sec (lit "tls") || text_eq sec (lit "reality"));
    }

abbrev pub maybe_stream : Option Json → Proxy → Proxy
unfolding with_stream
maybe_stream none p = p
maybe_stream (some st) p = with_stream st p

-- The first of `settings.vnext`, or else of `settings.servers`.
unfoldable pub target_of : Json → Option Json
unfolding get
target_of ob =
    let settings = get (lit "settings") ob in
    or_else (settings >>= get (lit "vnext") >>= first_of)
      (settings >>= get (lit "servers") >>= first_of)

abbrev pub user_in : Json → Json
user_in target = unwrap_or (get (lit "users") target >>= first_of) target

unfoldable pub v2ray_fields : Json → Json → Proxy → Proxy
unfolding text_at u32_from
v2ray_fields target user p = record p {
  uuid = or_else (text_at (lit "id") user) (text_at (lit "password") user);
  password = text_at (lit "password") user;
  cipher = text_at (lit "security") user;
  method = text_at (lit "method") user;
  alter_id = or_else (u32_from (get (lit "alterId") user)) (u32_from (get (lit "aid") user));
  flow = or_else (non_empty (text_at (lit "flow") user)) (text_at (lit "flow") target);
}

-- The node that its one target describes.
unfoldable pub from_target : Doubles → Json → Text → Json → Option Proxy
unfolding v2ray_fields with_stream port_from_json text_at
from_target d ob proto target = do
  server ← or_else (text_at (lit "address") target) (text_at (lit "address") (user_in target))
  port ← port_from_json d (or_else (get (lit "port") target) (get (lit "port") (user_in target)))
  type_ ← v2ray_type proto
  some (
      maybe_stream (get (lit "streamSettings") ob) (
        v2ray_fields target (user_in target)
          (new (unwrap_or (text_at (lit "tag") ob) proto) type_ server port)))

unfoldable pub node_from_v2ray : Doubles → Json → Option Proxy
unfolding target_of from_target text_at
node_from_v2ray d ob =
    text_at (lit "protocol") ob
    >>= (λ proto. target_of ob >>= (λ target. from_target d ob proto target))

-- `outbounds` of an object, or an array; a text that is no JSON is an error before this.
unfoldable pub parse_v2ray_json : Doubles → Json → List Proxy
unfolding node_from_v2ray get filter_items
parse_v2ray_json d v = elim (or_else (get (lit "outbounds") v >>= as_array) (as_array v)) [
  | none ↦ []
  | some arr ↦ filter_items (node_from_v2ray d) arr
]
