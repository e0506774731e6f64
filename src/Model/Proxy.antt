-- ===== src/Model/Proxy.antt =====
-- `Proxy`, `ProxyType` and the predicates on one node (core/src/model.rs).
-- A `String` is a `Text`; an unsigned integer is a number; an `f64` is its bit pattern.
pub mod Laws
use sub_hub.Common.{
  ℕ, Bool, true, false, not, ◌&&◌, ◌||◌, Option, none, some, List, [], ◌∷◌, Text, lit, String,
  or_else, unwrap_or, non_empty, is_some,
}
use sub_hub.Common.Float.{F64}
use sub_hub.Model.Json.{Json}

pub data ProxyType : Type 0 where
  ss trojan vmess vless hysteria2 tuic socks5 http wireguard any_tls other : ProxyType

unfoldable pub as_str : ProxyType → Text
as_str ss = lit "ss"
as_str trojan = lit "trojan"
as_str vmess = lit "vmess"
as_str vless = lit "vless"
as_str hysteria2 = lit "hysteria2"
as_str tuic = lit "tuic"
as_str socks5 = lit "socks5"
as_str http = lit "http"
as_str wireguard = lit "wireguard"
as_str any_tls = lit "anytls"
as_str other = lit "other"

pub record UnlockResult : Type 0 where
  pub status : Text
  pub region : Option Text

-- A `BTreeMap` by service id, in the order of its keys.
pub record ProxyUnlock : Type 0 where
  pub services : List (Text × UnlockResult)

pub record Proxy : Type 0 where
  pub name : Text
  pub type_ : ProxyType
  pub server : Text
  pub port : ℕ
  pub uuid : Option Text
  pub alter_id : Option ℕ
  pub cipher : Option Text
  pub flow : Option Text
  pub password : Option Text
  pub method : Option Text
  pub plugin : Option Text
  pub plugin_opts : Option Text
  pub obfs : Option Text
  pub obfs_password : Option Text
  pub alpn : Option (List Text)
  pub congestion_control : Option Text
  pub udp_relay_mode : Option Text
  pub udp_over_stream : Option Bool
  pub zero_rtt_handshake : Option Bool
  pub up_mbps : Option ℕ
  pub down_mbps : Option ℕ
  pub network : Option Text
  pub tls : Option Bool
  pub sni : Option Text
  pub skip_cert_verify : Option Bool
  pub path : Option Text
  pub host : Option Text
  pub service_name : Option Text
  pub fingerprint : Option Text
  pub reality : Bool
  pub reality_public_key : Option Text
  pub reality_short_id : Option Text
  pub latency_ms : Option ℕ
  pub tcp_latency_ms : Option ℕ
  pub http_latency_ms : Option ℕ
  pub available : Option Bool
  pub download_speed_bps : Option F64
  pub bandwidth_measured : Bool
  pub last_tested_at : Option ℕ
  pub consecutive_failures : ℕ
  pub outbound_country : Option Text
  pub unlock : Option ProxyUnlock
  pub extra : Option Json

-- `Proxy::new`.
abbrev pub new : Text → ProxyType → Text → ℕ → Proxy
new name type_ server port = record {
  name = name;
  type_ = type_;
  server = server;
  port = port;
  uuid = none;
  alter_id = none;
  cipher = none;
  flow = none;
  password = none;
  method = none;
  plugin = none;
  plugin_opts = none;
  obfs = none;
  obfs_password = none;
  alpn = none;
  congestion_control = none;
  udp_relay_mode = none;
  udp_over_stream = none;
  zero_rtt_handshake = none;
  up_mbps = none;
  down_mbps = none;
  network = none;
  tls = none;
  sni = none;
  skip_cert_verify = none;
  path = none;
  host = none;
  service_name = none;
  fingerprint = none;
  reality = false;
  reality_public_key = none;
  reality_short_id = none;
  latency_ms = none;
  tcp_latency_ms = none;
  http_latency_ms = none;
  available = none;
  download_speed_bps = none;
  bandwidth_measured = false;
  last_tested_at = none;
  consecutive_failures = 0;
  outbound_country = none;
  unlock = none;
  extra = none;
}

-- `available == Some(false)`.
abbrev pub is_dead : Option Bool → Bool
is_dead none = false
is_dead (some b) = not b

-- `available == Some(true)`.
abbrev pub is_alive : Option Bool → Bool
is_alive none = false
is_alive (some b) = b

-- The closure `has` of `is_exportable`.
abbrev pub has : Option Text → Bool
has o = is_some (non_empty o)

-- `match self.type_` of `is_exportable`.
unfoldable pub has_required : ProxyType → Proxy → Bool
has_required ss p = has p.password && (has p.cipher || has p.method)
has_required trojan p = has p.password
has_required any_tls p = has p.password
has_required vmess p = has p.uuid
has_required vless p = has p.uuid && (not p.reality || has p.reality_public_key)
has_required hysteria2 p = has p.password
has_required tuic p = has p.uuid && has p.password
has_required socks5 p = true
has_required http p = true
has_required wireguard p = false
has_required other p = false

unfoldable pub is_exportable : Proxy → Bool
unfolding has_required
is_exportable p = has_required p.type_ p

unfoldable pub is_usable : Proxy → Bool
unfolding is_exportable
is_usable p = is_exportable p && not (is_dead p.available)

unfoldable pub ss_method_value : Proxy → Option Text
ss_method_value p = non_empty (or_else p.method p.cipher)
