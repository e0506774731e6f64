-- ===== src/Ops/Update.antt =====
-- `incremental_update` and `merge_subscriptions_by_source` (core/src/ops.rs).
pub mod Refresh
pub mod Sources
use sub_hub.Common.{
  ℕ, suc, ◌+◌, Bool, true, false, not, Option, none, some, List, [], ◌∷◌, ◌++◌, map, Text, length,
  is_some, or_else, text_eq, contains_text, if◌then◌else◌,
}
use sub_hub.Common.Lookup.{lookup_last}
use sub_hub.Model.Proxy.{Proxy}
use sub_hub.Model.Fingerprint.{fingerprint}
use sub_hub.Model.Health.{SubscriptionHealth}
use sub_hub.Model.Subscription.{Subscription}

-- The fields that a surviving node keeps.
unfoldable pub carry_over : Proxy → Proxy → Proxy
carry_over o n = record n {
  latency_ms = o.latency_ms;
  tcp_latency_ms = o.tcp_latency_ms;
  http_latency_ms = o.http_latency_ms;
  available = o.available;
  download_speed_bps = o.download_speed_bps;
  bandwidth_measured = o.bandwidth_measured;
  last_tested_at = o.last_tested_at;
  consecutive_failures = o.consecutive_failures;
  outbound_country = o.outbound_country;
  unlock = o.unlock;
}

-- `old_map`.
abbrev pub by_fingerprint : List Proxy → List (Text × Proxy)
by_fingerprint = map (λ p. (fingerprint p, p))

-- The loop over the fetched nodes: `(merged, new_nodes)`.
unfoldable pub update_from : List (Text × Proxy) → List Text → List Proxy → List Proxy × List Proxy
unfolding contains_text
update_from old seen [] = ([], [])
update_from old seen (n ∷ ns) =
    let fp = fingerprint n in
    let skipped = update_from old seen ns in
    let rest = update_from old (fp ∷ seen) ns in
    if contains_text seen fp then skipped else elim (lookup_last fp old) [
      | some o ↦ (carry_over o n ∷ rest.0, rest.1)
      | none ↦ (n ∷ rest.0, n ∷ rest.1)
    ]

unfoldable pub incremental_update : List Proxy → List Proxy → List Proxy × List Proxy
unfolding update_from
incremental_update old new = update_from (by_fingerprint old) [] new

-- The branch for a source that exists.
unfoldable pub refresh_with : Subscription → Subscription → Subscription × List Proxy
refresh_with e sub =
    let update = incremental_update e.proxies sub.proxies in
    let failed = is_some sub.health.last_error in
    let health = if failed then e.health else record e.health {
      last_updated_at = sub.health.last_updated_at;
      upload = sub.health.upload;
      download = sub.health.download;
      total = sub.health.total;
      expire = sub.health.expire;
    } in
    (
      record e {
        proxies = if failed then e.proxies else update.0;
        health = record health {
          last_checked_at = sub.health.last_checked_at;
          last_error = sub.health.last_error;
        };
        fetch_proxy = or_else sub.fetch_proxy e.fetch_proxy;
      },
      if failed then [] else update.1,
    )

-- `existing.iter_mut().find(|s| s.source == sub.source)`: the first is updated in place.
unfoldable pub update_first :
    Subscription → List Subscription → Option (List Subscription × List Proxy)
update_first sub [] = none
update_first sub (e ∷ es) =
    let here : Option (List Subscription × List Proxy) =
      some ((refresh_with e sub).0 ∷ es, (refresh_with e sub).1) in
    let later = update_first sub es in
    if text_eq e.source sub.source
    then here
    else elim later [ none ↦ none | some (es', fresh) ↦ some (e ∷ es', fresh) ]

-- The store and the three results of `merge_subscriptions_by_source`.
pub record Merged : Type 0 where
  pub existing : List Subscription
  pub created : ℕ
  pub added_proxies : ℕ
  pub new_nodes : List Proxy

unfoldable pub merge_source : Merged → Subscription → Merged
merge_source m sub = elim (update_first sub m.existing) [
  | some (es, fresh) ↦ record m { existing = es; new_nodes = m.new_nodes ++ fresh }
  | none ↦ record m {
    existing = m.existing ++ sub ∷ [];
    created = m.created + 1;
    added_proxies = m.added_proxies + length sub.proxies;
    new_nodes = m.new_nodes ++ sub.proxies;
  }
]

unfoldable pub merge_sources : Merged → List Subscription → Merged
merge_sources m [] = m
merge_sources m (sub ∷ subs) = merge_sources (merge_source m sub) subs

unfoldable pub merge_subscriptions_by_source : List Subscription → List Subscription → Merged
merge_subscriptions_by_source existing incoming =
    merge_sources (record { existing = existing; created = 0; added_proxies = 0; new_nodes = [] })
      incoming
