-- ===== src/Server/Query.antt =====
-- The query of a shareable link, the name of a new subscription and the summary of a stored one
-- (server/src/lib.rs).
pub mod Percent
use sub_hub.Common.{
  ℕ, ◌+◌, ◌*◌, ◌^◌, ◌/◌, ◌%◌, Bool, true, false, not, ◌&&◌, ◌||◌, Option, none, some, List, [], ◌∷◌,
  ◌++◌, Text, lit, text_eq, is_empty, is_some, starts_with, split_at, trim, drop, unwrap_or, leb,
  ◌==◌, if◌then◌else◌, ◌>>=◌,
}
use sub_hub.Model.Health.{SubscriptionHealth, recompute, status}
use sub_hub.Model.Subscription.{Subscription}
use sub_hub.Ops.Transform.{Transform, FilterRule, SortBy, RenameRule}
use sub_hub.Parse.Dates.{parse_unsigned}
use sub_hub.Parse.Fields.{max_u64}

-- The fields of `SubQuery` that `transform_from_sub_query` reads.
pub record SubQuery : Type 0 where
  pub sort : Option Text
  pub desc : Option Text
  pub rename_pat : Option Text
  pub rename_rep : Option Text
  pub q : Option Text
  pub region : Option Text
  pub type_ : Option Text
  pub min_bw : Option Text
  pub max_lat : Option Text

-- A rule for a value that is not blank.
unfoldable pub include_rule : Text → Text → Option Text → List FilterRule
unfolding trim
include_rule field match_ none = []
include_rule field match_ (some v) =
    if is_empty (trim v)
    then []
    else record { field = field; mode = lit "include"; match_ = match_; value = v } ∷ []

unfoldable pub query_sort : SubQuery → Option SortBy
query_sort q = elim q.sort [
  | none ↦ none
  | some k ↦
      if is_empty k
      then none
      else some (record {
        key = k;
        desc = elim q.desc [
          | none ↦ false
          | some d ↦ text_eq d (lit "1") || text_eq d (lit "true")
        ];
      })
]

unfoldable pub query_rename : Option Text → Option Text → Option RenameRule
query_rename (some p) (some r) =
    if is_empty p then none else some (record { pattern = p; replacement = r })
query_rename _ _ = none

abbrev pub query_filters : SubQuery → List FilterRule
query_filters q =
    include_rule (lit "name") (lit "contains") q.q
    ++ include_rule (lit "region") (lit "contains") q.region
    ++ include_rule (lit "type") (lit "exact") q.type_

abbrev pub parsed : Option Text → Option ℕ
unfolding parse_unsigned
parsed o = o >>= parse_unsigned max_u64

abbrev pub no_rules : List FilterRule → Bool
no_rules [] = true
no_rules (r ∷ rs) = false

unfoldable pub transform_from_sub_query : SubQuery → Option Transform
unfolding include_rule query_sort query_rename
transform_from_sub_query q =
    let t : Transform = record {
      filters = query_filters q;
      sort = query_sort q;
      rename = query_rename q.rename_pat q.rename_rep;
      min_bandwidth_bps = parsed q.min_bw;
      max_latency_ms = parsed q.max_lat;
    } in
    if no_rules t.filters
      && not (is_some t.sort)
      && not (is_some t.rename)
      && not (is_some t.min_bandwidth_bps)
      && not (is_some t.max_latency_ms)
    then none
    else some t

-- The text up to a character.
unfoldable pub up_to : ℕ → Text → Text
up_to c [] = []
up_to c (x ∷ s) = if x == c then [] else x ∷ up_to c s

-- `u.split("//").nth(1)`, up to a slash, which the next `//` begins with.
unfoldable pub host_part : Text → Option Text
unfolding starts_with up_to
host_part [] = none
host_part (c ∷ s) =
    if starts_with (c ∷ s) (lit "//") then some (up_to 47 (drop 2 (c ∷ s))) else host_part s

unfoldable pub sub_name_from_url : Text → Text
unfolding host_part trim up_to
sub_name_from_url url =
    let u = trim url in
    let host = up_to 58 (unwrap_or (host_part u) u) in if is_empty host then lit "订阅" else host

-- `SubSummary`.
pub record SubSummary : Type 0 where
  pub id : Text
  pub name : Text
  pub source : Text
  pub source_type : Text
  pub enabled : Bool
  pub count : ℕ
  pub healthy : ℕ
  pub unknown : ℕ
  pub health_pct : Option ℕ
  pub avg_latency_ms : Option ℕ
  pub best_latency_ms : Option ℕ
  pub status : Text
  pub last_checked_at : Option ℕ
  pub last_updated_at : Option ℕ
  pub last_error : Option Text
  pub upload : Option ℕ
  pub download : Option ℕ
  pub total : Option ℕ
  pub expire : Option ℕ

-- `checked_mul`, `checked_div` and `as u8`.
unfoldable pub health_percent : ℕ → ℕ → Option ℕ
health_percent healthy count =
    if leb (2 ^ 64) (healthy * 100) || count == 0 then none else some (healthy * 100 / count % 256)

unfoldable pub sub_to_summary : Subscription → SubSummary
unfolding recompute status health_percent
sub_to_summary s =
    let h = recompute s.health s.proxies in
    record {
      id = s.id;
      name = s.name;
      source = s.source;
      source_type = h.source_type;
      enabled = h.enabled;
      count = h.node_count;
      healthy = h.healthy_node_count;
      unknown = h.unknown_node_count;
      health_pct = health_percent h.healthy_node_count h.node_count;
      avg_latency_ms = h.avg_latency_ms;
      best_latency_ms = h.best_latency_ms;
      status = status h;
      last_checked_at = h.last_checked_at;
      last_updated_at = h.last_updated_at;
      last_error = h.last_error;
      upload = h.upload;
      download = h.download;
      total = h.total;
      expire = h.expire;
    }
