-- ===== src/Server/Persist.antt =====
-- `persist_results` (server/src/lib.rs): test results written back onto the stored nodes.
pub mod Verdict
pub mod Removal
use Prim.Native.Nat.{min}
use sub_hub.Common.{
  ℕ, suc, ◌+◌, ◌-◌, ◌^◌, Bool, true, false, not, ◌&&◌, ◌||◌, Option, none, some, List, [], ◌∷◌, map,
  Text, lit, length, ltb, leb, get_elem?, retain, any, is_some, or_else, text_eq, trim,
  trim_matches, to_ascii_lowercase, ◌==◌, if◌then◌else◌,
}
use sub_hub.Common.Float.{F64}
use sub_hub.Common.Lookup.{lookup_last}
use sub_hub.Model.Proxy.{Proxy, is_alive, is_dead}
use sub_hub.Model.Fingerprint.{fingerprint}
use sub_hub.Model.Health.{SubscriptionHealth}
use sub_hub.Model.Subscription.{Subscription}
use sub_hub.SpeedTest.{SpeedTestResult}

-- `s.parse::<IpAddr>()`, with whether the address is a loopback or unspecified one.
abbrev pub IpParser : Type 0
IpParser = Text → Option Bool

unfoldable pub is_loopback_server : IpParser → Text → Bool
is_loopback_server parse_ip server =
    let s = trim_matches (λ c. c == 0x5B || c == 0x5D) (trim server) in
    text_eq (to_ascii_lowercase s) (lit "localhost")
    || elim (parse_ip s) [ none ↦ false | some local ↦ local ]

-- `PersistRow`, with its components named.
pub record PersistRow : Type 0 where
  pub lat : Option ℕ
  pub tcp_available : Bool
  pub http : Option ℕ
  pub download : Option F64
  pub measured : Bool
  pub ran_engine : Bool
  pub tcp_ms : Option ℕ

module _ {A : Type 0} where
  -- `idx.and_then(|i| xs.get(i))`, with both layers of `Option` flattened, and whether the outer is present.
  abbrev pub at : List (Option (Option A)) → Option ℕ → Option (Option A)
  at xs none = none
  at xs (some i) = elim (get_elem? xs i) [ none ↦ none | some x ↦ x ]

  abbrev pub flatten : Option (Option A) → Option A
  flatten none = none
  flatten (some x) = x

-- `fp_to_idx`.
unfoldable pub indexed : ℕ → List Proxy → List (Text × ℕ)
indexed i [] = []
indexed i (p ∷ ps) = (fingerprint p, i) ∷ indexed (suc i) ps

module _ (http : List (Option (Option ℕ))) (bw : List (Option (Option F64))) where
  -- The body of the first loop.
  unfoldable pub row : Option ℕ → SpeedTestResult → PersistRow
  row idx r =
      let h = flatten (at http idx) in
      let dl = flatten (at bw idx) in
      record {
        lat = or_else r.tcp_latency_ms h;
        tcp_available = r.available;
        http = h;
        download = dl;
        measured = is_some h || is_some dl;
        ran_engine = is_some (at http idx) || is_some (at bw idx);
        tcp_ms = r.tcp_latency_ms;
      }

  -- `by_fp`.
  unfoldable pub rows : List Proxy → List SpeedTestResult → List (Text × PersistRow)
  unfolding row indexed
  rows proxies tcp =
      map (λ r. (r.fingerprint, row (lookup_last r.fingerprint (indexed 0 proxies)) r)) tcp

abbrev pub next_failure : ℕ → ℕ
next_failure n = min (n + 1) (2 ^ 32 - 1)

-- A node on the local machine: its results are dropped.
unfoldable pub forget : Proxy → Proxy
forget p = record p {
  latency_ms = none;
  tcp_latency_ms = none;
  http_latency_ms = none;
  available = none;
  download_speed_bps = none;
  bandwidth_measured = false;
}

-- An engine is configured, and this round did not run it.
unfoldable pub tcp_only : ℕ → PersistRow → Proxy → Proxy
tcp_only now w p =
    let p' = record p { last_tested_at = some now; tcp_latency_ms = w.tcp_ms } in
    if w.tcp_available then p' else record p' {
      latency_ms = none;
      available = some false;
      download_speed_bps = none;
      bandwidth_measured = false;
      consecutive_failures = next_failure p.consecutive_failures;
    }

-- The verdict of a full test.
unfoldable pub full_test : Bool → ℕ → PersistRow → Proxy → Proxy
full_test avail now w p =
    let p' = record p {
      tcp_latency_ms = w.tcp_ms;
      http_latency_ms = if w.ran_engine then w.http else p.http_latency_ms;
      available = some avail;
      last_tested_at = some now;
    } in
    if avail
    then record p' {
      latency_ms = w.lat;
      download_speed_bps = if w.ran_engine then w.download else p.download_speed_bps;
      bandwidth_measured = if w.ran_engine then w.measured else p.bandwidth_measured;
      consecutive_failures = 0;
    }
    else record p' {
      latency_ms = none;
      download_speed_bps = none;
      bandwidth_measured = false;
      consecutive_failures = next_failure p.consecutive_failures;
    }

-- What a call has besides the store: the parser, whether an engine is configured, the clock, and
-- the threshold of automatic removal.
pub record Settings : Type 0 where
  pub parse_ip : IpParser
  pub engine_configured : Bool
  pub now : ℕ
  pub remove_after_fails : ℕ

-- The body of the inner loop, for a node with a row.
unfoldable pub update_node : Settings → PersistRow → Proxy → Proxy
unfolding forget tcp_only full_test
update_node s w p =
    if is_loopback_server s.parse_ip p.server
    then forget p
    else if s.engine_configured && not w.ran_engine
    then tcp_only s.now w p
    else full_test (if s.engine_configured then is_some w.http else w.tcp_available) s.now w p

unfoldable pub update_proxy : Settings → List (Text × PersistRow) → Proxy → Proxy
update_proxy s by_fp p = elim (lookup_last (fingerprint p) by_fp) [
  | none ↦ p
  | some w ↦ update_node s w p
]

-- The test of `retain`.
unfoldable pub stays : ℕ → Proxy → Bool
stays threshold p = not (is_dead p.available && leb threshold p.consecutive_failures)

unfoldable pub prune_failed : ℕ → List Proxy → List Proxy
unfolding stays
prune_failed threshold ps = if ltb 0 threshold then retain (stays threshold) ps else ps

-- The body of the outer loop: the subscription, and how many nodes were removed.
unfoldable pub update_subscription :
    Settings → List (Text × PersistRow) → Subscription → Subscription × ℕ
update_subscription s by_fp sub =
    let updated = map (update_proxy s by_fp) sub.proxies in
    let kept = prune_failed s.remove_after_fails updated in
    let health =
      if any (λ p. is_alive p.available) kept
      then record sub.health { last_healthy_at = some s.now }
      else sub.health in
    (record sub { proxies = kept; health = health }, length updated - length kept)

unfoldable pub update_all :
    Settings → List (Text × PersistRow) → List Subscription → List Subscription × ℕ
update_all s by_fp [] = ([], 0)
update_all s by_fp (sub ∷ subs) =
    let (sub', removed) = update_subscription s by_fp sub in
    let (subs', rest) = update_all s by_fp subs in (sub' ∷ subs', removed + rest)

unfoldable pub persist_results :
    Settings
    → List Proxy
    → List SpeedTestResult
    → List (Option (Option ℕ))
    → List (Option (Option F64))
    → List Subscription
    → List Subscription × ℕ
persist_results s proxies tcp http bw store = update_all s (rows http bw proxies tcp) store
