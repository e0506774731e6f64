-- ===== src/Export/SingBox.antt =====
-- `singbox_outbound` and `to_singbox_json` (core/src/export.rs): the outbounds of sing-box.
-- The members that are always written come in the order of `json!` or of the assignments.
pub mod Layers
use mathlib.Core.List.{filter_map}
use sub_hub.Common.{
  ℕ, Bool, true, false, ◌||◌, Option, none, some, List, [], Text, lit, text_eq, unwrap_or,
  if◌then◌else◌, ◌==◌,
}
use sub_hub.Model.Json.{
  items, Json, Members, end, member, object, array, nil, cons, bool, string, number, unsigned,
  insert,
}
use sub_hub.Model.Proxy.{
  Proxy, ProxyType, ss, trojan, vmess, vless, hysteria2, tuic, socks5, http, wireguard, any_tls,
  other,
}
use sub_hub.Export.Plugin.{ss_method, singbox_plugin}
use sub_hub.Export.Clash.{insert_some, text_value, bool_of, list_value, extra_user}
use sub_hub.Export.V2ray.{insecure, net_of}

abbrev pub number_value : Option ℕ → Option Json
number_value none = none
number_value (some n) = some (number (unsigned n))

abbrev pub header_value : Option Text → Option Json
header_value none = none
header_value (some h) = some (object (member (lit "Host") (string h) end))

abbrev pub single_value : Option Text → Option Json
single_value none = none
single_value (some h) = some (array (cons (string h) nil))

abbrev pub with_server_name : Proxy → Members → Json
unfolding insert_some
with_server_name p m = object (insert_some (lit "server_name") (text_value p.sni) m)

abbrev pub grpc_transport : Proxy → Option Text → Option Json
grpc_transport p none = none
grpc_transport p (some svc) = some (
    with_server_name p
      (member (lit "type") (string (lit "grpc")) (member (lit "service_name") (string svc) end)))

unfoldable pub singbox_transport : Proxy → Option Json
unfolding insert_some
singbox_transport p =
    let net = net_of p in
    if text_eq net (lit "ws")
    then some (
        with_server_name p (
          insert_some (lit "headers") (header_value p.host) (
            insert_some (lit "path") (text_value p.path)
              (member (lit "type") (string (lit "ws")) end))))
    else if text_eq net (lit "grpc")
    then grpc_transport p p.service_name
    else if text_eq net (lit "h2") || text_eq net (lit "http")
    then some (
        with_server_name p (
          insert_some (lit "host") (single_value p.host) (
            insert_some (lit "path") (text_value p.path)
              (member (lit "type") (string (lit "http")) end))))
    else none

abbrev pub utls : Text → Json
utls f = object (member (lit "enabled") (bool true) (member (lit "fingerprint") (string f) end))

abbrev pub utls_value : Option Text → Option Json
utls_value none = none
utls_value (some f) = some (utls f)

unfoldable pub reality_object : Proxy → Json
unfolding insert_some
reality_object p = object (
    insert_some (lit "short_id") (text_value p.reality_short_id) (
      insert_some (lit "public_key") (text_value p.reality_public_key)
        (member (lit "enabled") (bool true) end)))

-- `singbox_tls_forced`.
unfoldable pub tls_object : Proxy → Json
unfolding reality_object insert_some
tls_object p = object (
    insert_some (lit "utls")
      (if p.reality
        then some (utls (unwrap_or p.fingerprint (lit "chrome")))
        else utls_value p.fingerprint)
      (insert_some (lit "reality") (if p.reality then some (reality_object p) else none) (
        insert_some (lit "alpn") (list_value p.alpn) (
          insert_some (lit "server_name") (text_value p.sni)
            (member (lit "enabled") (bool true) (member (lit "insecure") (insecure p) end))))))

-- `singbox_tls_impl`.
unfoldable pub singbox_tls_impl : Proxy → Bool → Option Json
unfolding tls_object
singbox_tls_impl p enabled = if enabled then some (tls_object p) else none

abbrev pub singbox_tls : Proxy → Option Json
unfolding singbox_tls_impl
singbox_tls p = singbox_tls_impl p (unwrap_or p.tls false)

abbrev pub obfs_value : Proxy → Option Text → Option Json
obfs_value p none = none
obfs_value p (some obfs) = some (
    object (
      member (lit "type") (string obfs)
        (member (lit "password") (string (unwrap_or p.obfs_password [])) end)))

-- The members of every type.
unfoldable pub head : Text → Proxy → Members
head t p = member (lit "tag") (string p.name) (
    member (lit "type") (string t) (
      member (lit "server") (string p.server)
        (member (lit "server_port") (number (unsigned p.port)) end)))

abbrev pub streamed : Proxy → Members → Json
unfolding insert_some singbox_transport singbox_tls_impl
streamed p m = object (
    insert_some (lit "tls") (singbox_tls p) (insert_some (lit "transport") (singbox_transport p) m))

abbrev pub plugin_entries : Option (Text × Option Text) → Members → Members
unfolding insert_some
plugin_entries none m = m
plugin_entries (some (name, opts)) m =
    insert_some (lit "plugin_opts") (text_value opts) (insert (lit "plugin") (string name) m)

abbrev pub login_entries : Proxy → Members → Members
unfolding insert_some
login_entries p m =
    insert_some (lit "password") (text_value p.password)
      (insert_some (lit "username") (text_value (extra_user p)) m)

unfoldable pub singbox_of : ProxyType → Proxy → Option Json
unfolding head singbox_plugin ss_method tls_object insert_some
singbox_of vmess p = some (
    streamed p (
      insert (lit "alter_id") (number (unsigned (unwrap_or p.alter_id 0))) (
        insert (lit "security") (string (unwrap_or p.cipher (lit "auto")))
          (insert (lit "uuid") (string (unwrap_or p.uuid [])) (head (lit "vmess") p)))))
singbox_of vless p = some (
    streamed p (
      insert (lit "packet_encoding") (string (lit "xudp")) (
        insert_some (lit "flow") (text_value p.flow)
          (insert (lit "uuid") (string (unwrap_or p.uuid [])) (head (lit "vless") p)))))
singbox_of trojan p = some (
    streamed p (insert (lit "password") (string (unwrap_or p.password [])) (head (lit "trojan") p)))
singbox_of ss p = some (
    object (
      plugin_entries (singbox_plugin p) (
        insert (lit "password") (string (unwrap_or p.password []))
          (insert (lit "method") (string (ss_method p)) (head (lit "shadowsocks") p)))))
singbox_of hysteria2 p = some (
    object (
      insert (lit "tls") (tls_object p) (
        insert_some (lit "down_mbps") (number_value p.down_mbps) (
          insert_some (lit "up_mbps") (number_value p.up_mbps) (
            insert_some (lit "obfs") (obfs_value p p.obfs) (
              insert (lit "password") (string (unwrap_or p.password []))
                (head (lit "hysteria2") p)))))))
singbox_of tuic p = some (
    object (
      insert (lit "tls") (tls_object p) (
        insert_some (lit "zero_rtt_handshake") (bool_of p.zero_rtt_handshake) (
          insert_some (lit "udp_over_stream") (bool_of p.udp_over_stream) (
            insert_some (lit "udp_relay_mode")
              (if unwrap_or p.udp_over_stream false then none else text_value p.udp_relay_mode)
              (insert_some (lit "congestion_control") (text_value p.congestion_control) (
                insert (lit "password") (string (unwrap_or p.password []))
                  (insert (lit "uuid") (string (unwrap_or p.uuid [])) (head (lit "tuic") p)))))))))
singbox_of socks5 p =
    some
      (object (login_entries p (insert (lit "version") (string (lit "5")) (head (lit "socks") p))))
singbox_of http p = some (
    object (
      insert_some (lit "tls")
        (if unwrap_or p.tls false || p.port == 443 then some (tls_object p) else none)
        (login_entries p (head (lit "http") p))))
singbox_of wireguard p = none
singbox_of any_tls p = none
singbox_of other p = none

abbrev pub singbox_outbound : Proxy → Option Json
singbox_outbound p = singbox_of p.type_ p

-- The value that is written; the text of it is not modelled.
unfoldable pub to_singbox_json : List Proxy → Json
unfolding singbox_of
to_singbox_json ps =
    object (member (lit "outbounds") (array (items (filter_map singbox_outbound ps))) end)
