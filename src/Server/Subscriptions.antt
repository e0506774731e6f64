-- ===== src/Server/Subscriptions.antt =====
-- The handlers of server/src/handlers/subscription.rs that add, import, refresh, rename and delete
-- subscriptions and nodes. Each is the step on the store up to the speed test of the nodes it
-- returns, and without the saving after it. The HTTP client and its errors are parameters.
pub mod Phases
pub mod Refreshed
use sub_hub.Common.{
  ℕ, ◌+◌, ◌-◌, Bool, true, false, not, ◌&&◌, ◌||◌, Option, none, some, List, [], ◌∷◌, ◌++◌, map,
  Text, lit, length, ltb, leb, retain, any, is_some, is_empty, text_eq, trim, unwrap_or, ◌==◌,
  if◌then◌else◌, ◌>>=◌,
}
use sub_hub.Common.Decimal.{decimal}
use sub_hub.Model.Proxy.{Proxy}
use sub_hub.Model.Fingerprint.{fingerprint}
use sub_hub.Model.Merge.{merge}
use sub_hub.Model.Health.{recompute}
use sub_hub.Model.Subscription.{Subscription, Counters, new_subscription}
use sub_hub.Ops.Update.{incremental_update, merge_subscriptions_by_source, Merged}
use sub_hub.Parse.Document.{parse_subscription, lines}
use sub_hub.Parse.Uri.{Codecs, b64_decode}
use sub_hub.Parse.Usage.{SubscriptionUsage}
use sub_hub.Server.Backup.{is_remote}
use sub_hub.Server.Query.{sub_name_from_url}
use sub_hub.Server.Requests.{
  Sent, Fetched, document, error, fetch_subscription_text, usage_from_sources,
}

-- What `client_with_proxy` returns: a client that sends requests, or an error.
pub data Client : Type 0 where
  ready : (Text → Sent) → Client
  refused : Text → Client

unfoldable pub expand_input_entry : Codecs → Text → List Text
unfolding trim is_remote b64_decode lines
expand_input_entry k raw =
    let s = trim raw in
    if is_empty s then [] else if is_remote s then s ∷ [] else elim (b64_decode k s) [
      | none ↦ []
      | some bytes ↦ retain is_remote (map trim (lines (k.from_utf8_lossy bytes)))
    ]

abbrev pub expand_all : Codecs → List Text → List Text
unfolding expand_input_entry
expand_all k [] = []
expand_all k (raw ∷ raws) = expand_input_entry k raw ++ expand_all k raws

-- A proxy that is not blank.
abbrev pub not_blank : Option Text → Option Text
not_blank none = none
not_blank (some s) = if is_empty (trim s) then none else some s

abbrev pub max_urls_per_request : ℕ
max_urls_per_request = 50

-- `store.iter_mut().find(|s| s.id == id)`, and a change of what is found.
unfoldable pub update_by_id :
    Text → (Subscription → Subscription) → List Subscription → List Subscription
update_by_id id f [] = []
update_by_id id f (s ∷ ss) =
    let rest = update_by_id id f ss in if text_eq s.id id then f s ∷ ss else s ∷ rest

unfoldable pub find_by_id : Text → List Subscription → Option Subscription
find_by_id id [] = none
find_by_id id (s ∷ ss) = let rest = find_by_id id ss in if text_eq s.id id then some s else rest

-- A subscription after its fetch.
unfoldable pub with_usage : SubscriptionUsage → Subscription → Subscription
with_usage u sub = record sub {
  health = record sub.health {
    upload = u.upload;
    download = u.download;
    total = u.total;
    expire = u.expire;
  };
}

-- The `match` on the fetch of a new subscription.
unfoldable pub filled : Codecs → ℕ → Fetched → Subscription → Subscription
unfolding parse_subscription usage_from_sources with_usage
filled k now (error e) sub = record sub { health = record sub.health { last_error = some e } }
filled k now (document text userinfo) sub =
    let proxies = parse_subscription k text in
    let sub' = with_usage (usage_from_sources k userinfo text) sub in
    let empty = length proxies == 0 in
    record sub' {
      proxies = proxies;
      health = record sub'.health {
        last_updated_at = if empty then none else some now;
        last_error = if empty then some (lit "订阅返回 0 个节点") else none;
      };
    }

-- The body of the loop over the URLs.
unfoldable pub fetched_subscription :
    Codecs → Client → Option Text → ℕ → Text → Subscription → Subscription
unfolding filled fetch_subscription_text
fetched_subscription k client proxy now url new =
    let sub = record new {
      fetch_proxy = proxy;
      health = record new.health { last_checked_at = some now };
    } in
    elim client [
      | refused e ↦ record sub { health = record sub.health { last_error = some e } }
      | ready get ↦ filled k now (fetch_subscription_text k get url) sub
    ]

-- The loop; `clock` gives the nanoseconds and `time` the milliseconds that each turn reads.
unfoldable pub fetch_all :
    Codecs
    → Client
    → Option Text
    → (ℕ → ℕ)
    → (ℕ → ℕ)
    → List Text
    → Counters
    → List Subscription × Counters
unfolding fetched_subscription new_subscription sub_name_from_url
fetch_all k client proxy clock time [] c = ([], c)
fetch_all k client proxy clock time (url ∷ urls) c =
    let new = new_subscription (clock c.uid_counter) (sub_name_from_url url) url [] c in
    let rest = fetch_all k client proxy clock time urls new.1 in
    (fetched_subscription k client proxy (time c.uid_counter) url new.0 ∷ rest.0, rest.1)

-- The master switch, and the proxy of the request or else the remembered one.
unfoldable pub effective_proxy : Bool → Option Text → Option Text → Option Text
effective_proxy use_proxy requested remembered =
    if use_proxy
    then elim (not_blank requested) [ none ↦ not_blank remembered | some s ↦ some s ]
    else none

-- A subscription of the batch that was fetched.
abbrev pub succeeded : Subscription → Bool
succeeded s = not (is_some s.health.last_error) && not (length s.proxies == 0)

-- The merge of a batch that is not too long, the counters, and the proxy to remember. `connect` is
-- `client_with_proxy`.
unfoldable pub add_subscriptions :
    Codecs
    → (Option Text → Client)
    → (ℕ → ℕ)
    → (ℕ → ℕ)
    → List Text
    → Option Text
    → Option Text
    → List Subscription
    → Counters
    → Option (Merged × Counters × Option Text)
unfolding fetch_all merge_subscriptions_by_source
add_subscriptions k connect clock time raws proxy remembered store c =
    let urls = expand_all k raws in
    let batch = fetch_all k (connect proxy) proxy clock time urls c in
    if ltb max_urls_per_request (length urls)
    then none
    else some (
      merge_subscriptions_by_source store batch.0,
      batch.1,
      if is_some proxy && any succeeded batch.0 then proxy else remembered,
    )

-- The store with the pasted subscription behind, or the refusal of a paste without nodes.
unfoldable pub import_raw :
    Codecs
    → ℕ
    → ℕ
    → Text
    → Option Text
    → List Subscription
    → Counters
    → Option (List Subscription × Counters)
unfolding parse_subscription merge new_subscription
import_raw k nanos now content name store c =
    let parsed = parse_subscription k content in
    let title = unwrap_or (not_blank name) (lit "本地导入 " ++ decimal (length store + 1)) in
    let new = new_subscription nanos title (lit "pasted") (merge parsed) c in
    let sub = record new.0 {
      health = record new.0.health { last_checked_at = some now; last_updated_at = some now };
    } in
    if length parsed == 0 then none else some (store ++ sub ∷ [], new.1)

unfoldable pub without_node : Text → Subscription → Subscription
without_node fp sub =
    let kept = retain (λ p. not (text_eq (fingerprint p) fp)) sub.proxies in
    if length kept == length sub.proxies
    then sub
    else record sub { proxies = kept; health = recompute sub.health kept }

-- The store, and how many nodes were removed: with none the answer is `404`.
unfoldable pub delete_proxy : Text → Text → List Subscription → List Subscription × ℕ
unfolding update_by_id find_by_id without_node
delete_proxy id fp store = elim (find_by_id id store) [
  | none ↦ (store, 0)
  | some sub ↦ (
    update_by_id id (without_node fp) store,
    length sub.proxies - length (without_node fp sub).proxies,
  )
]

-- The store, and whether a subscription was found.
unfoldable pub delete_subscription : Text → List Subscription → List Subscription × Bool
delete_subscription id store =
    let kept = retain (λ s. not (text_eq s.id id)) store in
    (kept, not (length kept == length store))

pub data RenameAnswer : Type 0 where
  empty_name name_too_long not_found : RenameAnswer
  renamed : List Subscription → RenameAnswer

-- The number of bytes of a text in UTF-8, which `str::len` counts.
unfoldable pub utf8_length : Text → ℕ
utf8_length [] = 0
utf8_length (c ∷ s) =
    (if ltb c 0x80 then 1 else if ltb c 0x800 then 2 else if ltb c 0x10000 then 3 else 4)
    + utf8_length s

unfoldable pub rename_subscription : Text → Text → List Subscription → RenameAnswer
unfolding update_by_id find_by_id trim utf8_length
rename_subscription id requested store =
    let name = trim requested in
    if is_empty name
    then empty_name
    else if ltb 256 (utf8_length name)
    then name_too_long
    else elim (find_by_id id store) [
      | none ↦ not_found
      | some _ ↦ renamed (update_by_id id (λ s. record s { name = name }) store)
    ]
