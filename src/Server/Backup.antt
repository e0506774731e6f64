-- ===== src/Server/Backup.antt =====
-- `export_subscriptions` and `import_subscriptions` (server/src/handlers/subscription.rs): the
-- backup of the store, and its restore. The request's JSON is not modelled; saving the store
-- afterwards is `Snapshot`'s. `none` stands for the panic of an index out of range.
pub mod Accounting
pub mod Targets
pub mod Restore
use sub_hub.Common.{
  ℕ, zero, suc, ◌+◌, Bool, true, false, not, ◌&&◌, ◌||◌, Option, none, some, List, [], ◌∷◌, ◌++◌,
  map, Text, lit, length, get_elem?, or_else, is_empty, starts_with, text_eq, trim, if◌then◌else◌,
}
use sub_hub.Common.Lookup.{lookup_last}
use sub_hub.Model.Proxy.{Proxy}
use sub_hub.Model.Health.{SubscriptionHealth, recompute}
use sub_hub.Model.Subscription.{Subscription, Counters, new_subscription}

pub record SubExportItem : Type 0 where
  pub id : Text
  pub uid : Text
  pub name : Text
  pub source : Text
  pub source_type : Text
  pub fetch_proxy : Option Text
  pub health_enabled : Bool
  pub proxies : List Proxy
  pub last_checked_at : Option ℕ
  pub last_updated_at : Option ℕ
  pub last_healthy_at : Option ℕ
  pub last_error : Option Text
  pub upload : Option ℕ
  pub download : Option ℕ
  pub total : Option ℕ
  pub expire : Option ℕ

unfoldable pub export_item : Subscription → SubExportItem
export_item s = record {
  id = s.id;
  uid = s.uid;
  name = s.name;
  source = s.source;
  source_type = s.health.source_type;
  fetch_proxy = s.fetch_proxy;
  health_enabled = s.health.enabled;
  proxies = s.proxies;
  last_checked_at = s.health.last_checked_at;
  last_updated_at = s.health.last_updated_at;
  last_healthy_at = s.health.last_healthy_at;
  last_error = s.health.last_error;
  upload = s.health.upload;
  download = s.health.download;
  total = s.health.total;
  expire = s.health.expire;
}

-- The `subscriptions` of the document.
unfoldable pub export_subscriptions : List Subscription → List SubExportItem
unfolding export_item
export_subscriptions = map export_item

unfoldable pub is_remote : Text → Bool
is_remote source = starts_with source (lit "http://") || starts_with source (lit "https://")

-- `by_url` before the loop; a later subscription replaces an earlier one of its source.
unfoldable pub by_url_from : ℕ → List Subscription → List (Text × ℕ)
unfolding is_remote
by_url_from i [] = []
by_url_from i (s ∷ ss) =
    let rest = by_url_from (suc i) ss in
    if is_remote s.source && not (is_empty (trim s.source)) then (s.source, i) ∷ rest else rest

module _ {A : Type 0} (f : A → Bool) where
  -- The indices, from `i`, of the elements that pass the test.
  unfoldable pub positions : ℕ → List A → List ℕ
  positions i [] = []
  positions i (x ∷ xs) = let rest = positions (suc i) xs in if f x then i ∷ rest else rest

  -- `iter().position(f)`, counted from `i`.
  unfoldable pub position : ℕ → List A → Option ℕ
  position i [] = none
  position i (x ∷ xs) = let rest = position (suc i) xs in if f x then some i else rest

-- `(matches.len() == 1).then(|| matches[0])`.
abbrev pub only : List ℕ → Option ℕ
only (i ∷ []) = some i
only _ = none

abbrev pub pasted_uid : Text → Subscription → Bool
pasted_uid uid s = text_eq s.source (lit "pasted") && text_eq s.uid uid

abbrev pub pasted_name : Text → Subscription → Bool
pasted_name name s = text_eq s.source (lit "pasted") && text_eq s.name name

unfoldable pub target : List (Text × ℕ) → List Subscription → SubExportItem → Option ℕ
unfolding is_remote
target by_url guard it =
    if is_remote it.source
    then lookup_last it.source by_url
    else if not (is_empty (trim it.uid))
    then position (pasted_uid it.uid) 0 guard
    else only (positions (pasted_name it.name) 0 guard)

-- The fields of `sub` that the entry sets.
unfoldable pub restored : ℕ → SubExportItem → Subscription → Subscription
unfolding is_remote
restored now it sub = record sub {
  fetch_proxy = it.fetch_proxy;
  health = record sub.health {
    enabled = it.health_enabled;
    source_type = if is_remote it.source then lit "remote" else it.source_type;
    last_checked_at = or_else it.last_checked_at (some now);
    last_updated_at = or_else it.last_updated_at (some now);
    last_healthy_at = it.last_healthy_at;
    last_error = it.last_error;
    upload = it.upload;
    download = it.download;
    total = it.total;
    expire = it.expire;
  };
}

abbrev pub set_at {ℓ} : {A : Type ℓ} → ℕ → A → List A → List A
set_at i y [] = []
set_at zero y (x ∷ xs) = y ∷ xs
set_at (suc i) y (x ∷ xs) = x ∷ set_at i y xs

-- The store, the index, the counters of the ids and the two counts.
pub record Import : Type 0 where
  pub guard : List Subscription
  pub by_url : List (Text × ℕ)
  pub counters : Counters
  pub added : ℕ
  pub replaced : ℕ

abbrev pub kept_uid : Text → Text → Text → Text
kept_uid existing backup new =
    if is_empty existing then (if is_empty backup then new else backup) else existing

-- The branch for a subscription that exists.
unfoldable pub replacing : SubExportItem → Subscription → Subscription → Subscription
replacing it old sub = record sub {
  id = old.id;
  uid = kept_uid old.uid it.uid sub.uid;
  health = recompute sub.health sub.proxies;
}

-- The branch for a new subscription.
unfoldable pub appending : SubExportItem → Subscription → Subscription
unfolding is_remote
appending it sub = record sub {
  uid = if not (is_remote it.source) && not (is_empty (trim it.uid)) then it.uid else sub.uid;
  health = recompute sub.health sub.proxies;
}

unfoldable pub append_to : SubExportItem → Subscription → Import → Import
unfolding appending is_remote
append_to it sub m = record m {
  guard = m.guard ++ appending it sub ∷ [];
  by_url = if is_remote it.source then m.by_url ++ (it.source, length m.guard) ∷ [] else m.by_url;
  added = m.added + 1;
}

unfoldable pub replace_at : ℕ → SubExportItem → Subscription → Subscription → Import → Import
unfolding replacing
replace_at i it old sub m = record m {
  guard = set_at i (replacing it old sub) m.guard;
  replaced = m.replaced + 1;
}

-- `if let Some(idx) = target`.
unfoldable pub place : SubExportItem → Subscription → Option ℕ → Import → Option Import
unfolding append_to replace_at
place it sub none m = some (append_to it sub m)
place it sub (some i) m = elim (get_elem? m.guard i) [
  | none ↦ none
  | some old ↦ some (replace_at i it old sub m)
]

-- The subscription made of an entry. `clock` gives the nanoseconds that it reads for its `uid`.
unfoldable pub incoming : (ℕ → ℕ) → ℕ → SubExportItem → Counters → Subscription × Counters
unfolding new_subscription restored
incoming clock now it c =
    let new = new_subscription (clock c.uid_counter) it.name it.source it.proxies c in
    (restored now it new.0, new.1)

-- The body of the loop.
unfoldable pub import_one : (ℕ → ℕ) → ℕ → SubExportItem → Import → Option Import
unfolding target incoming place
import_one clock now it m =
    let made = incoming clock now it m.counters in
    place it made.0 (target m.by_url m.guard it) (record m { counters = made.1 })

unfoldable pub import_from : (ℕ → ℕ) → ℕ → List SubExportItem → Import → Option Import
unfolding import_one
import_from clock now [] m = some m
import_from clock now (it ∷ its) m = elim (import_one clock now it m) [
  | none ↦ none
  | some m' ↦ import_from clock now its m'
]

unfoldable pub import_subscriptions :
    (ℕ → ℕ) → ℕ → List SubExportItem → List Subscription → Counters → Option Import
unfolding import_from by_url_from
import_subscriptions clock now items store c =
    import_from clock now items (record {
      guard = store;
      by_url = by_url_from 0 store;
      counters = c;
      added = 0;
      replaced = 0;
    })
