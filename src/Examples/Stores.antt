-- ===== src/Examples/Stores.antt =====
-- Theorems about the operations on the store, at concrete inputs.
use sub_hub.Common.{
  All, ◌≡◌, refl, true, false, none, some, List, [], ◌∷◌, lit, text_eq, to_ascii_lowercase, trim,
  trim_matches, arith,
}
use sub_hub.Model.Subscription.{Subscription}
use sub_hub.Server.Persist.{
  PersistRow, Settings, is_loopback_server, update_proxy, rows, persist_results,
}
use sub_hub.Server.Persist.Removal.{AllWritten, persist_results-AllWritten}
use sub_hub.SpeedTest.{SpeedTestResult}
use sub_hub.Model.Fingerprint.{fingerprint}
use sub_hub.Server.Persist.Verdict.{
  Round, last_verdict, failures, last_http, after, update_node-history,
}
use sub_hub.Server.Maintenance.{prune_dead_subscriptions}
use sub_hub.Server.Maintenance.Cleanup.{Swept, prune_dead_subscriptions_removes}
use sub_hub.Examples.Samples.{node, alive, dead, stored}

abbrev settings : Settings
settings = record {
  parse_ip = λ s. none;
  engine_configured = true;
  now = 99;
  remove_after_fails = 1;
}

abbrev reached : PersistRow
reached = record {
  lat = some 20;
  tcp_available = true;
  http = some 80;
  download = none;
  measured = true;
  ran_engine = true;
  tcp_ms = some 20;
}

abbrev refused : PersistRow
refused = record reached {
  lat = none;
  tcp_available = false;
  http = none;
  ran_engine = false;
  tcp_ms = none;
}

abbrev connected : PersistRow
connected = record refused { tcp_available = true; tcp_ms = some 9 }

-- A bare test that failed came last, after one that succeeded, and the engine reached the node before.
abbrev rounds : List Round
rounds = (settings, refused) ∷ (settings, connected) ∷ (settings, reached) ∷ []

rounds-remote : All (λ r. is_loopback_server r.0.parse_ip (dead (lit "a")).server ≡ false) rounds
unfolding is_loopback_server text_eq to_ascii_lowercase trim_matches trim
rounds-remote = (refl, (refl, (refl, tt)))

update_node-history_example :
    ((after rounds (dead (lit "a"))).available ≡ last_verdict (some false) rounds)
    × ((after rounds (dead (lit "a"))).consecutive_failures
        ≡ failures (dead (lit "a")).consecutive_failures rounds)
    × ((after rounds (dead (lit "a"))).http_latency_ms
        ≡ last_http (dead (lit "a")).http_latency_ms rounds)
update_node-history_example =
    update_node-history (dead (lit "a")) rounds rounds-remote (omega arith)

abbrev store : List Subscription
store =
    stored (lit "sub_1") (lit "http://a") (dead (lit "a") ∷ alive (lit "b") 7 ∷ node (lit "c") ∷ [])
    ∷ stored (lit "sub_2") (lit "http://b") []
    ∷ []

-- What was measured of one node: the connection is refused.
abbrev refusal : SpeedTestResult
refusal = record {
  fingerprint = fingerprint (alive (lit "b") 7);
  name = lit "b";
  tcp_latency_ms = none;
  http_latency_ms = none;
  available = false;
  download_speed_bps = none;
  error = some (lit "refused");
}

persist_results-AllWritten_example :
    AllWritten settings
      (update_proxy settings (rows [] [] (alive (lit "b") 7 ∷ []) (refusal ∷ [])))
      store
      (persist_results settings (alive (lit "b") 7 ∷ []) (refusal ∷ []) [] [] store).0
      (persist_results settings (alive (lit "b") 7 ∷ []) (refusal ∷ []) [] [] store).1
persist_results-AllWritten_example =
    persist_results-AllWritten settings (alive (lit "b") 7 ∷ []) (refusal ∷ []) [] [] store

prune_dead_subscriptions_removes_example :
    Swept 3 900000000 store
      (prune_dead_subscriptions 3 900000000 store).0
      (prune_dead_subscriptions 3 900000000 store).1
prune_dead_subscriptions_removes_example =
    prune_dead_subscriptions_removes 3 900000000 store (omega arith) (omega arith)
