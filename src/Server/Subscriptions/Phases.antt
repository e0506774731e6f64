-- ===== src/Server/Subscriptions/Phases.antt =====
-- The refresh of one subscription (`do_refresh_one`): the fetch without the lock, and the step on
-- the store as it is then.
use sub_hub.Common.{
  ℕ, Bool, Option, none, some, List, [], Text, lit, length, text_eq, ◌==◌, if◌then◌else◌, ◌>>=◌,
}
use sub_hub.Model.Proxy.{Proxy}
use sub_hub.Model.Health.{recompute}
use sub_hub.Model.Subscription.{Subscription}
use sub_hub.Ops.Update.{incremental_update}
use sub_hub.Parse.Document.{parse_subscription}
use sub_hub.Parse.Uri.{Codecs}
use sub_hub.Parse.Usage.{SubscriptionUsage}
use sub_hub.Server.Requests.{
  Sent, Fetched, document, error, fetch_subscription_text, usage_from_sources,
}
use sub_hub.Server.Subscriptions.{
  Client, ready, refused, not_blank, with_usage, find_by_id, update_by_id,
}

-- What the fetch of the first phase leaves: nothing for a local subscription.
pub data FetchPhase : Type 0 where
  no_fetch : FetchPhase
  fetched : List Proxy → SubscriptionUsage → FetchPhase
  fetch_err : Text → FetchPhase

unfoldable pub read_fetched : Codecs → Fetched → FetchPhase
unfolding parse_subscription usage_from_sources
read_fetched k (error e) = fetch_err e
read_fetched k (document text userinfo) =
    let proxies = parse_subscription k text in
    if length proxies == 0
    then fetch_err (lit "订阅返回 0 个节点（已保留原有节点）")
    else fetched proxies (usage_from_sources k userinfo text)

-- The status of the answer, with its counts or its error.
pub data Outcome : Type 0 where
  refreshed : ℕ → ℕ → Outcome
  restamped : ℕ → Outcome
  failed : Option Text → Outcome

abbrev pub stamped : ℕ → Subscription → Subscription
stamped now s = record s { health = record s.health { last_checked_at = some now } }

-- The second phase on the subscription: it, the answer and the nodes to test.
unfoldable pub settle : ℕ → Text → FetchPhase → Subscription → Subscription × Outcome × List Proxy
unfolding incremental_update recompute with_usage
settle now source_type (fetched proxies usage) s =
    let update = incremental_update s.proxies proxies in
    let s' = with_usage usage (record (stamped now s) { proxies = update.0 }) in
    let health = recompute s'.health update.0 in
    (
      record s' { health = record health { last_updated_at = some now; last_error = none } },
      refreshed (length update.0) (length update.1),
      update.1,
    )
settle now source_type (fetch_err e) s =
    let s' = stamped now s in
    (record s' { health = record s'.health { last_error = some e } }, failed (some e), [])
settle now source_type no_fetch s =
    let s' = stamped now s in
    if text_eq source_type (lit "local")
    then (
      record s' { health = record s'.health { last_updated_at = some now } },
      restamped (length s.proxies),
      [],
    )
    else (record s' { health = record s'.health { last_error = none } }, failed none, [])

-- The store, the answer and the nodes to test.
abbrev pub Refresh : Type 0
Refresh = List Subscription × Outcome × List Proxy

-- The branch without a client.
unfoldable pub note_error : ℕ → Text → Subscription → Subscription
note_error now e s =
    let s' = stamped now s in record s' { health = record s'.health { last_error = some e } }

unfoldable pub first_phase : Codecs → (Text → Sent) → Subscription → FetchPhase
unfolding read_fetched fetch_subscription_text
first_phase k get s =
    if text_eq s.health.source_type (lit "remote")
    then read_fetched k (fetch_subscription_text k get s.source)
    else no_fetch

-- The second phase on the store.
unfoldable pub settled : ℕ → Text → Text → FetchPhase → List Subscription → Option Refresh
unfolding find_by_id update_by_id settle
settled now id source_type phase after = find_by_id id after >>= λ t.
    let result = settle now source_type phase t in
    some (update_by_id id (λ u. (settle now source_type phase u).0) after, result.1, result.2)

-- The `match` on the client.
unfoldable pub refresh_answer :
    Codecs → ℕ → Text → List Subscription → Subscription → Client → Option Refresh
unfolding settled update_by_id note_error first_phase
refresh_answer k now id after s (refused e) =
    some (update_by_id id (note_error now e) after, failed (some e), [])
refresh_answer k now id after s (ready get) =
    settled now id s.health.source_type (first_phase k get s) after

-- `before` is the store when the target is looked up, `after` the one when the lock is taken again.
unfoldable pub do_refresh_one :
    Codecs
    → (Option Text → Client)
    → Bool
    → ℕ
    → Text
    → List Subscription
    → List Subscription
    → Option Refresh
unfolding find_by_id refresh_answer
do_refresh_one k connect use_proxy now id before after = find_by_id id before >>= λ s.
    refresh_answer k now id after s (connect (if use_proxy then not_blank s.fetch_proxy else none))
