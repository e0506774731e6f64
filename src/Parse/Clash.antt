-- ===== src/Parse/Clash.antt =====
-- `from_clash_value` (core/src/parse.rs): a node from its entry in a Clash configuration.
use sub_hub.Common.{
  ℕ, Bool, true, false, ◌||◌, Option, none, some, List, [], ◌∷◌, ◌++◌, Text, lit, text_eq, join,
  non_empty, or_else, unwrap_or, if◌then◌else◌, ◌>>=◌,
}
use sub_hub.Common.Decimal.{decimal}
use sub_hub.Model.Json.{
  Json, Members, end, member, bool, string, number, unsigned, real, get, as_string, as_u64, as_bool,
  as_object, first_of, text_at, text_within,
}
use sub_hub.Model.Proxy.{
  Proxy, ProxyType, ss, trojan, vmess, vless, hysteria2, tuic, socks5, http, wireguard, other, new,
}
use sub_hub.Model.Region.{Unicode}
use sub_hub.Parse.Fields.{Doubles, port_from_yaml, u32_from, yaml_string_list, parse_mbps}

-- `match type_str.to_lowercase().as_str()`.
unfoldable pub clash_type : Text → ProxyType
clash_type t =
    if text_eq t (lit "ss")
    then ss
    else if text_eq t (lit "trojan")
    then trojan
    else if text_eq t (lit "vmess")
    then vmess
    else if text_eq t (lit "vless")
    then vless
    else if text_eq t (lit "hysteria2") || text_eq t (lit "hysteria-2")
    then hysteria2
    else if text_eq t (lit "tuic")
    then tuic
    else if text_eq t (lit "socks5") || text_eq t (lit "socks")
    then socks5
    else if text_eq t (lit "http")
    then http
    else if text_eq t (lit "wireguard")
    then wireguard
    else other

-- The text of a plugin option's value.
abbrev pub option_text : Doubles → Json → Option Text
option_text d (bool true) = some (lit "true")
option_text d (bool false) = some (lit "false")
option_text d (string s) = some s
option_text d (number (unsigned n)) = some (decimal n)
option_text d (number (real x)) = some (d.display x)
option_text d _ = none

unfoldable pub plugin_parts : Doubles → Members → List Text
plugin_parts d end = []
plugin_parts d (member key v m) = elim (option_text d v) [
  | none ↦ plugin_parts d m
  | some value ↦ (key ++ 61 ∷ value) ∷ plugin_parts d m
]

module _ (d : Doubles) (v : Json) where
  unfoldable pub clash_plugin_opts : Option Text
  unfolding plugin_parts
  clash_plugin_opts =
      non_empty
        (get (lit "plugin-opts") v >>= as_object >>= (λ m. some (join 59 (plugin_parts d m))))

  -- The closure `mbps`.
  unfoldable pub clash_mbps : Text → Option ℕ
  unfolding parse_mbps
  clash_mbps key = get key v >>= (λ x. or_else (as_string x >>= parse_mbps d) (as_u64 x))

  unfoldable pub h2_host : Option Text
  h2_host =
      get (lit "h2-opts") v
      >>= get (lit "host")
      >>= (λ x. or_else (as_string x) (first_of x >>= as_string))

  unfoldable pub clash_path : Option Text
  unfolding text_at text_within
  clash_path = or_else (text_at (lit "path") v) (
      or_else (text_within (lit "ws-opts") (lit "path") v)
        (text_within (lit "h2-opts") (lit "path") v))

  unfoldable pub clash_host : Option Text
  unfolding text_at h2_host
  clash_host = or_else (text_at (lit "host") v) (
      or_else (get (lit "ws-opts") v >>= get (lit "headers") >>= get (lit "Host") >>= as_string)
        h2_host)

  abbrev pub flag_at : Text → Option Bool
  flag_at key = get key v >>= as_bool

  -- The fields, `reality-opts` excepted.
  unfoldable pub clash_fields : Text → ProxyType → Text → ℕ → Proxy
  unfolding clash_plugin_opts clash_mbps clash_path clash_host text_at text_within
  clash_fields name type_ server port = record (new name type_ server port) {
    uuid = text_at (lit "uuid") v;
    alter_id = u32_from (get (lit "alterId") v);
    cipher = text_at (lit "cipher") v;
    flow = text_at (lit "flow") v;
    password = text_at (lit "password") v;
    method = text_at (lit "method") v;
    plugin = text_at (lit "plugin") v;
    plugin_opts = clash_plugin_opts;
    obfs = text_at (lit "obfs") v;
    obfs_password = text_at (lit "obfs-password") v;
    alpn = yaml_string_list (get (lit "alpn") v);
    congestion_control =
        or_else (text_at (lit "congestion-controller") v) (text_at (lit "congestion_control") v);
    udp_relay_mode = or_else (text_at (lit "udp-relay-mode") v) (text_at (lit "udp_relay_mode") v);
    udp_over_stream =
        or_else (get (lit "udp-over-stream") v) (get (lit "udp_over_stream") v) >>= as_bool;
    zero_rtt_handshake =
        or_else (get (lit "reduce-rtt") v) (get (lit "zero_rtt_handshake") v) >>= as_bool;
    up_mbps = clash_mbps (lit "up");
    down_mbps = clash_mbps (lit "down");
    network = text_at (lit "network") v;
    tls = flag_at (lit "tls");
    sni = or_else (text_at (lit "sni") v) (text_at (lit "servername") v);
    skip_cert_verify = flag_at (lit "skip-cert-verify");
    path = clash_path;
    host = clash_host;
    service_name = text_within (lit "grpc-opts") (lit "grpc-service-name") v;
    fingerprint = text_at (lit "client-fingerprint") v;
  }

  -- `if let Some(ro) = v.get("reality-opts")`.
  unfoldable pub with_reality : Proxy → Proxy
  unfolding text_at
  with_reality p = elim (get (lit "reality-opts") v) [
    | none ↦ p
    | some ro ↦ record p {
      reality = true;
      reality_public_key = text_at (lit "public-key") ro;
      reality_short_id = text_at (lit "short-id") ro;
      tls = some true;
    }
  ]

  unfoldable pub from_clash_value : Unicode → Option Proxy
  unfolding clash_fields with_reality clash_type port_from_yaml text_at
  from_clash_value u = do
    type_str ← text_at (lit "type") v
    server ← text_at (lit "server") v
    port ← port_from_yaml (get (lit "port") v)
    some (
        with_reality (
          clash_fields (unwrap_or (text_at (lit "name") v) server)
            (clash_type (u.str_lowercase type_str)) server port))
