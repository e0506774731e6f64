-- ===== src/Export/Clash.antt =====
-- `to_clash_value` (core/src/export.rs): the entry of a node in a Clash configuration.
pub mod Entries
pub mod Kept
pub mod Reimport
use sub_hub.Common.{
  ℕ, Bool, true, false, not, ◌&&◌, ◌||◌, Option, none, some, List, [], ◌∷◌, ◌++◌, Text, lit,
  text_eq, non_empty, or_else, unwrap_or, ◌==◌, if◌then◌else◌, ◌>>=◌,
}
use sub_hub.Common.Decimal.{decimal}
use sub_hub.Model.Json.{
  Json, Members, end, member, object, array, nil, cons, bool, string, number, unsigned, insert,
  text_at, string_items,
}
use sub_hub.Model.Proxy.{
  Proxy, ProxyType, ss, trojan, vmess, vless, hysteria2, tuic, socks5, http, wireguard, any_tls,
  other, as_str, has, is_exportable,
}
use sub_hub.Export.Plugin.{clash_plugin}

-- An entry that is written only if there is a value.
unfoldable pub insert_some : Text → Option Json → Members → Members
insert_some key none m = m
insert_some key (some v) m = insert key v m

abbrev pub strings_of : Option Text → Option Json
strings_of o = non_empty o >>= (λ t. some (string t))

unfoldable pub insert_opt : Text → Option Text → Members → Members
unfolding insert_some
insert_opt key val = insert_some key (strings_of val)

abbrev pub bool_of : Option Bool → Option Json
bool_of none = none
bool_of (some b) = some (bool b)

unfoldable pub insert_opt_bool : Text → Option Bool → Members → Members
unfolding insert_some
insert_opt_bool key val = insert_some key (bool_of val)

abbrev pub list_value : Option (List Text) → Option Json
list_value none = none
list_value (some []) = none
list_value (some (t ∷ ts)) = some (array (string_items (t ∷ ts)))

unfoldable pub insert_string_list : Text → Option (List Text) → Members → Members
unfolding insert_some
insert_string_list key val = insert_some key (list_value val)

-- The transport's object and its key.
unfoldable pub ws_opts : Proxy → Json
unfolding insert_opt
ws_opts p = object (
    insert_some (lit "headers")
      (non_empty p.host >>= (λ h. some (object (member (lit "Host") (string h) end))))
      (insert_opt (lit "path") p.path end))

unfoldable pub h2_opts : Proxy → Json
unfolding insert_opt
h2_opts p = object (
    insert_some (lit "host") (non_empty p.host >>= (λ h. some (array (cons (string h) nil))))
      (insert_opt (lit "path") p.path end))

unfoldable pub transport_opts : Proxy → Option (Text × Json)
unfolding ws_opts h2_opts
transport_opts p =
    let net = unwrap_or p.network [] in
    if text_eq net (lit "ws")
    then (if has p.path || has p.host then some (lit "ws-opts", ws_opts p) else none)
    else if text_eq net (lit "grpc") && has p.service_name
    then some (
      lit "grpc-opts",
      object (member (lit "grpc-service-name") (string (unwrap_or p.service_name [])) end),
    )
    else if (text_eq net (lit "h2") || text_eq net (lit "http")) && (has p.path || has p.host)
    then some (lit "h2-opts", h2_opts p)
    else none

unfoldable pub insert_transport_opts : Proxy → Members → Members
unfolding transport_opts
insert_transport_opts p m = elim (transport_opts p) [ none ↦ m | some (k, v) ↦ insert k v m ]

-- `up` and `down`.
abbrev pub mbps_value : Option ℕ → Option Json
mbps_value none = none
mbps_value (some n) = some (string (decimal n ++ lit " Mbps"))

unfoldable pub insert_plugin : Proxy → Members → Members
insert_plugin p m = elim (clash_plugin p) [
  | none ↦ m
  | some (name, opts) ↦ elim opts [
    | end ↦ insert (lit "plugin") (string name) m
    | member k v rest ↦
        insert (lit "plugin-opts") (object (member k v rest))
          (insert (lit "plugin") (string name) m)
  ]
]

-- `client-fingerprint` of a VLESS node.
abbrev pub vless_fingerprint : Proxy → Option Text
vless_fingerprint p =
    if p.reality then some (unwrap_or p.fingerprint (lit "chrome")) else p.fingerprint

abbrev pub reality_opts : Proxy → Option Json
reality_opts p =
    if p.reality
    then some (
        object (
          insert_opt (lit "short-id") p.reality_short_id
            (insert_opt (lit "public-key") p.reality_public_key end)))
    else none

abbrev pub extra_user : Proxy → Option Text
extra_user p = p.extra >>= text_at (lit "user")

abbrev pub text_value : Option Text → Option Json
text_value none = none
text_value (some u) = some (string u)

abbrev pub http_tls : Proxy → Option Bool
http_tls p = or_else p.tls (if p.port == 443 then some true else none)

-- `match p.type_`: the entries of the type, written onto those of every type, the last first.
unfoldable pub type_entries : ProxyType → Proxy → Members → Members
unfolding insert_opt insert_opt_bool insert_string_list insert_transport_opts insert_plugin
type_entries ss p m = insert_plugin p (
    insert_opt (lit "password") p.password
      (insert_opt (lit "cipher") (or_else p.cipher p.method) m))
type_entries trojan p m = insert_opt_bool (lit "skip-cert-verify") p.skip_cert_verify (
    insert (lit "tls") (bool true) (
      insert_transport_opts p (
        insert_string_list (lit "alpn") p.alpn (
          insert_opt (lit "client-fingerprint") p.fingerprint (
            insert_opt (lit "network") p.network (
              insert_opt (lit "flow") p.flow
                (insert_opt (lit "sni") p.sni (insert_opt (lit "password") p.password m))))))))
type_entries vmess p m = insert_opt_bool (lit "skip-cert-verify") p.skip_cert_verify (
    insert (lit "tls") (bool (unwrap_or p.tls false)) (
      insert_transport_opts p (
        insert_string_list (lit "alpn") p.alpn (
          insert_opt (lit "client-fingerprint") p.fingerprint (
            insert_opt (lit "sni") p.sni (
              insert_opt (lit "network") p.network (
                insert_opt (lit "cipher") p.cipher (
                  insert (lit "alterId") (number (unsigned (unwrap_or p.alter_id 0)))
                    (insert_opt (lit "uuid") p.uuid m)))))))))
type_entries vless p m = insert_some (lit "reality-opts") (reality_opts p) (
    insert (lit "tls") (bool (unwrap_or p.tls false)) (
      insert_transport_opts p (
        insert_opt_bool (lit "skip-cert-verify") p.skip_cert_verify (
          insert_string_list (lit "alpn") p.alpn (
            insert_opt (lit "client-fingerprint") (vless_fingerprint p) (
              insert_opt (lit "sni") p.sni (
                insert_opt (lit "network") p.network
                  (insert_opt (lit "flow") p.flow (insert_opt (lit "uuid") p.uuid m)))))))))
type_entries hysteria2 p m = insert_opt_bool (lit "skip-cert-verify") p.skip_cert_verify (
    insert_some (lit "down") (mbps_value p.down_mbps) (
      insert_some (lit "up") (mbps_value p.up_mbps) (
        insert_string_list (lit "alpn") p.alpn (
          insert_opt (lit "obfs-password") p.obfs_password (
            insert_opt (lit "obfs") p.obfs
              (insert_opt (lit "sni") p.sni (insert_opt (lit "password") p.password m)))))))
type_entries tuic p m = insert_opt_bool (lit "reduce-rtt") p.zero_rtt_handshake (
    insert_opt_bool (lit "udp-over-stream") p.udp_over_stream (
      insert_opt (lit "udp-relay-mode")
        (if unwrap_or p.udp_over_stream false then none else p.udp_relay_mode)
        (insert_opt (lit "congestion-controller") p.congestion_control (
          insert_string_list (lit "alpn") p.alpn (
            insert_opt (lit "sni") p.sni
              (insert_opt (lit "password") p.password (insert_opt (lit "uuid") p.uuid m)))))))
type_entries any_tls p m = insert_opt_bool (lit "skip-cert-verify") p.skip_cert_verify (
    insert_opt (lit "client-fingerprint") p.fingerprint
      (insert_opt (lit "sni") p.sni (insert_opt (lit "password") p.password m)))
type_entries socks5 p m = insert_opt_bool (lit "tls") (http_tls p) (
    insert_opt (lit "password") p.password
      (insert_some (lit "username") (text_value (extra_user p)) m))
type_entries http p m = insert_opt_bool (lit "tls") (http_tls p) (
    insert_opt (lit "password") p.password
      (insert_some (lit "username") (text_value (extra_user p)) m))
type_entries wireguard p m = m
type_entries other p m = m

unfoldable pub base_entries : Proxy → Members
base_entries p = insert (lit "port") (number (unsigned p.port)) (
    insert (lit "server") (string p.server)
      (insert (lit "type") (string (as_str p.type_)) (insert (lit "name") (string p.name) end)))

unfoldable pub to_clash_value : Proxy → Json
unfolding type_entries base_entries
to_clash_value p = object (type_entries p.type_ p (base_entries p))

-- The sequence `proxies` of the configuration; the text that it is written as is not modelled.
unfoldable pub to_clash_meta : List Proxy → List Json
unfolding to_clash_value
to_clash_meta [] = []
to_clash_meta (p ∷ ps) =
    let rest = to_clash_meta ps in if is_exportable p then to_clash_value p ∷ rest else rest
