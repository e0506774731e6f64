-- ===== src/SpeedTest.antt =====
-- The TCP test of nodes (core/src/speedtest.rs): results, the cache of a run, and resolution.
pub mod Ports
pub mod Pool
use sub_hub.Common.{
  ℕ, Bool, true, false, ◌&&◌, ◌||◌, ◌+◌, ◌%◌, ◌^◌, Option, none, some, List, [], ◌∷◌, ◌++◌, Text,
  lit, text_eq, ◌==◌, if◌then◌else◌,
}
use sub_hub.Common.Float.{F64, float_ge}
use sub_hub.Model.Proxy.{Proxy}
use sub_hub.Model.Fingerprint.{fingerprint}

pub record SpeedTestResult : Type 0 where
  pub fingerprint : Text
  pub name : Text
  pub tcp_latency_ms : Option ℕ
  pub http_latency_ms : Option ℕ
  pub available : Bool
  pub download_speed_bps : Option F64
  pub error : Option Text

-- The address by its notation, and the port.
pub record SocketAddr : Type 0 where
  pub ip : Text
  pub port : ℕ

-- `Result<SocketAddr, String>`.
pub data Resolved : Type 0 where
  address : SocketAddr → Resolved
  unresolved : Text → Resolved

-- The latency in milliseconds with the estimate of the throughput, or the error.
pub data ProbeOutcome : Type 0 where
  reached : ℕ → Option F64 → ProbeOutcome
  failed : Text → ProbeOutcome

-- What the resolver's thread sends within its budget: the addresses, which get the port that was
-- asked for, or an error, if anything.
pub data DnsAnswer : Type 0 where
  addresses : List Text → DnsAnswer
  refused : Text → DnsAnswer
  timeout : DnsAnswer

-- What the connection gives: the latency, the writes until the budget is spent, each with its bytes
-- unless it fails, and the seconds that they took; or an error.
pub data Connection : Type 0 where
  connected : ℕ → List (Option ℕ) → F64 → Connection
  not_connected : Text → Connection

-- Newest entries first: an insertion hides the older entry of its key.
pub record RunCache : Type 0 where
  pub dns : List (Text × Resolved)
  pub endpoints : List ((Text × ℕ) × ProbeOutcome)

unfoldable pub find_host : Text → List (Text × Resolved) → Option Resolved
find_host host [] = none
find_host host ((h, r) ∷ m) = if text_eq h host then some r else find_host host m

unfoldable pub find_endpoint : Text → ℕ → List ((Text × ℕ) × ProbeOutcome) → Option ProbeOutcome
find_endpoint host port [] = none
find_endpoint host port (((h, p), o) ∷ m) =
    if text_eq h host && p == port then some o else find_endpoint host port m

unfoldable pub dns_get : RunCache → Text → Option Resolved
unfolding find_host
dns_get c host = find_host host c.dns

unfoldable pub dns_put : RunCache → Text → Resolved → RunCache
dns_put c host res = record c { dns = (host, res) ∷ c.dns }

unfoldable pub endpoint : RunCache → Text → ℕ → Option ProbeOutcome
unfolding find_endpoint
endpoint c host port = find_endpoint host port c.endpoints

unfoldable pub remember_endpoint : RunCache → Text → ℕ → ProbeOutcome → RunCache
remember_endpoint c host port res = record c { endpoints = ((host, port), res) ∷ c.endpoints }

-- The first address, or the error that is reported.
unfoldable pub resolve_uncached : ℕ → DnsAnswer → Resolved
resolve_uncached port (addresses []) = unresolved (lit "no address resolved")
resolve_uncached port (addresses (ip ∷ ips)) = address (record { ip = ip; port = port })
resolve_uncached port (refused e) = unresolved (lit "dns: " ++ e)
resolve_uncached port timeout = unresolved (lit "dns timeout")

-- `host.parse::<IpAddr>()`.
abbrev pub IpLiteral : Type 0
IpLiteral = Text → Option Text

-- What is known before the resolver is asked: a literal address, or the answer kept for the host.
unfoldable pub resolve_known : IpLiteral → RunCache → Text → ℕ → Option Resolved
unfolding dns_get
resolve_known ip_literal c host port = elim (ip_literal host) [
  | none ↦ dns_get c host
  | some ip ↦ some (address (record { ip = ip; port = port }))
]

-- The bytes up to the first failing write; the sum wraps around.
unfoldable pub sent_bytes : List (Option ℕ) → ℕ
sent_bytes [] = 0
sent_bytes (none ∷ writes) = 0
sent_bytes (some n ∷ writes) = (n + sent_bytes writes) % 2 ^ 64

-- 0.001.
abbrev pub one_thousandth : F64
one_thousandth = record { bits = 0x3F50624DD2F1A9FC }

-- `total as f64 / dt`.
abbrev pub Quotient : Type 0
Quotient = ℕ → F64 → F64

unfoldable pub measure_send_throughput : Quotient → List (Option ℕ) → F64 → Option F64
unfolding sent_bytes
measure_send_throughput divide writes dt =
    if float_ge one_thousandth dt || sent_bytes writes == 0
    then none
    else some (divide (sent_bytes writes) dt)

-- `connect_timeout`, and the estimate on the open connection.
unfoldable pub connect : Quotient → Connection → ProbeOutcome
unfolding measure_send_throughput
connect divide (connected latency writes dt) =
    reached latency (measure_send_throughput divide writes dt)
connect divide (not_connected e) = failed (lit "conn: " ++ e)

-- The result that `test_one` makes of the outcome.
unfoldable pub test_one : Proxy → ProbeOutcome → SpeedTestResult
test_one p (reached latency bw) = record {
  fingerprint = fingerprint p;
  name = p.name;
  tcp_latency_ms = some latency;
  http_latency_ms = none;
  available = true;
  download_speed_bps = bw;
  error = none;
}
test_one p (failed e) = record {
  fingerprint = fingerprint p;
  name = p.name;
  tcp_latency_ms = none;
  http_latency_ms = none;
  available = false;
  download_speed_bps = none;
  error = some e;
}
