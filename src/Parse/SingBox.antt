-- ===== src/Parse/SingBox.antt =====
-- `parse_singbox_json` (core/src/parse.rs): the nodes of a sing-box configuration.
use sub_hub.Common.{
  ℕ, Bool, true, false, ◌||◌, Option, none, some, List, [], Text, lit, text_eq, is_some, or_else,
  unwrap_or, if◌then◌else◌, ◌>>=◌,
}
use sub_hub.Model.Json.{
  Json, get, as_bool, as_u64, as_array, text_at, bool, object, string, strings, member, end,
  filter_items, find_member,
}
use sub_hub.Model.Proxy.{
  Proxy, ProxyType, ss, trojan, vmess, vless, hysteria2, tuic, socks5, wireguard, other, new,
}
use sub_hub.Parse.Fields.{Doubles, port_from_json, some_list}
use sub_hub.Parse.V2ray.{text_or_first}

-- A type that is not known is `Other`.
abbrev pub singbox_type : Text → ProxyType
singbox_type t =
    if text_eq t (lit "shadowsocks")
    then ss
    else if text_eq t (lit "trojan")
    then trojan
    else if text_eq t (lit "vmess")
    then vmess
    else if text_eq t (lit "vless")
    then vless
    else if text_eq t (lit "hysteria2")
    then hysteria2
    else if text_eq t (lit "tuic")
    then tuic
    else if text_eq t (lit "socks")
    then socks5
    else if text_eq t (lit "wireguard")
    then wireguard
    else other

abbrev user_object : Text → Option Json
user_object u = some (object (member (lit "user") (string u) end))

-- The fields that every type has.
unfoldable pub credentials : Json → Proxy → Proxy
unfolding text_at
credentials ob p = record p {
  password = text_at (lit "password") ob;
  method = text_at (lit "method") ob;
  uuid = text_at (lit "uuid") ob;
  extra = text_at (lit "username") ob >>= user_object;
  flow = text_at (lit "flow") ob;
}

-- The fields of one type.
unfoldable pub type_fields : ProxyType → Json → Proxy → Proxy
unfolding text_at get
type_fields ss ob p = record p {
  plugin = text_at (lit "plugin") ob;
  plugin_opts = text_at (lit "plugin_opts") ob;
}
type_fields hysteria2 ob p = record p {
  obfs = get (lit "obfs") ob >>= text_at (lit "type");
  obfs_password = get (lit "obfs") ob >>= text_at (lit "password");
  up_mbps = get (lit "up_mbps") ob >>= as_u64;
  down_mbps = get (lit "down_mbps") ob >>= as_u64;
}
type_fields tuic ob p = record p {
  congestion_control = text_at (lit "congestion_control") ob;
  udp_relay_mode = text_at (lit "udp_relay_mode") ob;
  udp_over_stream = get (lit "udp_over_stream") ob >>= as_bool;
  zero_rtt_handshake = get (lit "zero_rtt_handshake") ob >>= as_bool;
}
type_fields _ ob p = p

abbrev pub tls_enabled : Option Json → Bool
unfolding find_member
tls_enabled none = false
tls_enabled (some (bool b)) = b
tls_enabled (some (object o)) = unwrap_or (find_member (lit "enabled") o >>= as_bool) true
tls_enabled (some _) = true

abbrev pub texts_of : Json → Option (List Text)
texts_of v = as_array v >>= (λ xs. some_list (strings xs))

abbrev pub is_reality : Option Json → Bool
unfolding get
is_reality r = unwrap_or (r >>= get (lit "enabled") >>= as_bool) (is_some r)

-- `if let Some(tls) = ob.get("tls")`.
unfoldable pub with_tls : Option Json → Proxy → Proxy
unfolding get text_at
with_tls none p = p
with_tls (some tls) p =
    let real = get (lit "reality") tls in
    let on = is_reality real in
    record p {
      sni = text_at (lit "server_name") tls;
      skip_cert_verify = get (lit "insecure") tls >>= as_bool;
      alpn = get (lit "alpn") tls >>= texts_of;
      reality = if on then true else p.reality;
      reality_public_key =
          if on
          then or_else (text_at (lit "public_key") tls) (real >>= text_at (lit "public_key"))
          else p.reality_public_key;
      reality_short_id = if on then real >>= text_at (lit "short_id") else p.reality_short_id;
      tls = if on then some true else p.tls;
      fingerprint =
          or_else (get (lit "utls") tls >>= text_at (lit "fingerprint"))
            (text_at (lit "client_fingerprint") tls);
    }

-- `if let Some(transport) = ob.get("transport")`.
unfoldable pub with_transport : Option Json → Proxy → Proxy
unfolding get text_at
with_transport none p = p
with_transport (some t) p =
    let ttype = unwrap_or (text_at (lit "type") t) [] in
    if text_eq ttype (lit "ws")
    then record p {
      network = some (lit "ws");
      path = text_at (lit "path") t;
      host = get (lit "headers") t >>= text_at (lit "Host");
    }
    else if text_eq ttype (lit "grpc")
    then record p { network = some (lit "grpc"); service_name = text_at (lit "service_name") t }
    else if text_eq ttype (lit "h2") || text_eq ttype (lit "http")
    then record p {
      network = some (lit "h2");
      path = text_at (lit "path") t;
      host = get (lit "host") t >>= text_or_first;
    }
    else p

abbrev pub with_switch : Json → Proxy → Proxy
unfolding get
with_switch ob p = record p { tls = some (tls_enabled (get (lit "tls") ob)) }

unfoldable pub singbox_fields : Json → ProxyType → Text → Text → ℕ → Proxy
unfolding credentials type_fields with_tls with_transport get
singbox_fields ob t name server port = with_transport (get (lit "transport") ob) (
    with_tls (get (lit "tls") ob)
      (with_switch ob (type_fields t ob (credentials ob (new name t server port)))))

unfoldable pub node_from_singbox : Doubles → Json → Option Proxy
unfolding singbox_fields port_from_json text_at get
node_from_singbox d ob = do
  server ← text_at (lit "server") ob
  port ← port_from_json d (get (lit "server_port") ob)
  some (
      singbox_fields ob (singbox_type (unwrap_or (text_at (lit "type") ob) []))
        (unwrap_or (text_at (lit "tag") ob) server) server port)

-- A text that is no JSON is an error before this.
unfoldable pub parse_singbox_json : Doubles → Json → List Proxy
unfolding node_from_singbox get filter_items
parse_singbox_json d v = elim (get (lit "outbounds") v >>= as_array) [
  | none ↦ []
  | some outbounds ↦ filter_items (node_from_singbox d) outbounds
]
