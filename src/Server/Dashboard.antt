-- ===== src/Server/Dashboard.antt =====
-- `dashboard` and the rolling history of `trends` (server/src/handlers/nodes.rs).
pub mod Counts
pub mod Spaced
use sub_hub.Common.{
  ℕ, suc, ◌+◌, ◌-◌, Bool, true, false, ◌&&◌, Option, none, some, List, [], ◌∷◌, ◌++◌, map, Text,
  length, drop, ltb, text_eq, ◌==◌, if◌then◌else◌,
}
use sub_hub.Common.Float.{F64, float_zero, float_lt, is_finite}
use sub_hub.Model.Proxy.{Proxy, as_str}
use sub_hub.Model.Health.{u64, checked_div, smaller}
use sub_hub.Model.Region.{Unicode, effective_region}
use sub_hub.Model.Subscription.{Subscription}
use sub_hub.Score.{Arithmetic}
use sub_hub.Server.Query.{SubSummary, sub_to_summary}
use sub_hub.Server.Selection.{flatten_dedup}

-- `*map.entry(k).or_insert(0) += 1`.
unfoldable pub bump : Text → List (Text × ℕ) → List (Text × ℕ)
bump k [] = (k, 1) ∷ []
bump k ((j, n) ∷ m) = let rest = bump k m in if text_eq j k then (j, n + 1) ∷ m else (j, n) ∷ rest

-- The variables of the loop.
pub record Totals : Type 0 where
  pub by_type : List (Text × ℕ)
  pub by_region : List (Text × ℕ)
  pub available : ℕ
  pub unavailable : ℕ
  pub untested : ℕ
  pub lat_sum : ℕ
  pub lat_n : ℕ
  pub best : Option ℕ
  pub bw_sum : F64
  pub bw_n : ℕ
  pub best_bw : Option F64
  pub http_lat_sum : ℕ
  pub http_lat_n : ℕ
  pub best_http : Option ℕ

abbrev pub no_totals : Totals
no_totals = record {
  by_type = [];
  by_region = [];
  available = 0;
  unavailable = 0;
  untested = 0;
  lat_sum = 0;
  lat_n = 0;
  best = none;
  bw_sum = float_zero;
  bw_n = 0;
  best_bw = none;
  http_lat_sum = 0;
  http_lat_n = 0;
  best_http = none;
}

abbrev pub count_state : Option Bool → Totals → Totals
count_state (some true) t = record t { available = t.available + 1 }
count_state (some false) t = record t { unavailable = t.unavailable + 1 }
count_state none t = record t { untested = t.untested + 1 }

abbrev pub count_tcp : Option ℕ → Totals → Totals
count_tcp none t = t
count_tcp (some ms) t = record t {
  lat_sum = u64 (t.lat_sum + ms);
  lat_n = t.lat_n + 1;
  best = some (smaller t.best ms);
}

abbrev pub count_http : Option ℕ → Totals → Totals
count_http none t = t
count_http (some ms) t = record t {
  http_lat_sum = u64 (t.http_lat_sum + ms);
  http_lat_n = t.http_lat_n + 1;
  best_http = some (smaller t.best_http ms);
}

-- `f64::max` on numbers that are not NaN.
abbrev pub larger : Option F64 → F64 → F64
larger none b = b
larger (some x) b = if float_lt x b then b else x

abbrev pub count_bandwidth : Arithmetic → Option F64 → Totals → Totals
count_bandwidth a none t = t
count_bandwidth a (some b) t =
    if is_finite b && float_lt float_zero b
    then record t {
      bw_sum = a.add t.bw_sum b;
      bw_n = t.bw_n + 1;
      best_bw = some (larger t.best_bw b);
    }
    else t

module _ (u : Unicode) (a : Arithmetic) where
  -- The body of the loop.
  unfoldable pub count_node : Totals → Proxy → Totals
  unfolding bump
  count_node t p =
      let t₁ = record t {
        by_type = bump (as_str p.type_) t.by_type;
        by_region = bump (effective_region u p) t.by_region;
      } in
      count_bandwidth a p.download_speed_bps
        (count_http p.http_latency_ms (count_tcp p.latency_ms (count_state p.available t₁)))

  unfoldable pub count_all : Totals → List Proxy → Totals
  count_all t [] = t
  count_all t (p ∷ ps) = count_all (count_node t p) ps

pub record DashboardResp : Type 0 where
  pub total : ℕ
  pub by_type : List (Text × ℕ)
  pub by_region : List (Text × ℕ)
  pub subscriptions : ℕ
  pub available : ℕ
  pub unavailable : ℕ
  pub untested : ℕ
  pub avg_latency_ms : Option ℕ
  pub best_latency_ms : Option ℕ
  pub avg_bandwidth_bps : Option F64
  pub best_bandwidth_bps : Option F64
  pub avg_http_latency_ms : Option ℕ
  pub best_http_latency_ms : Option ℕ
  pub per_sub : List SubSummary

-- The answer, ahead of the sample for the history.
unfoldable pub summarised : Unicode → Arithmetic → List Subscription → DashboardResp
unfolding count_all flatten_dedup sub_to_summary
summarised u a store =
    let all = flatten_dedup none store in
    let t = count_all u a no_totals all in
    record {
      total = length all;
      by_type = t.by_type;
      by_region = t.by_region;
      subscriptions = length store;
      available = t.available;
      unavailable = t.unavailable;
      untested = t.untested;
      avg_latency_ms = checked_div t.lat_sum t.lat_n;
      best_latency_ms = t.best;
      avg_bandwidth_bps = if ltb 0 t.bw_n then some (a.div t.bw_sum (a.of_u64 t.bw_n)) else none;
      best_bandwidth_bps = t.best_bw;
      avg_http_latency_ms = checked_div t.http_lat_sum t.http_lat_n;
      best_http_latency_ms = t.best_http;
      per_sub = map sub_to_summary store;
    }

pub record TrendPoint : Type 0 where
  pub t : ℕ
  pub total : ℕ
  pub available : ℕ
  pub unavailable : ℕ
  pub untested : ℕ
  pub avg_latency_ms : Option ℕ
  pub best_latency_ms : Option ℕ

abbrev pub trend_point : ℕ → DashboardResp → TrendPoint
trend_point now r = record {
  t = now;
  total = r.total;
  available = r.available;
  unavailable = r.unavailable;
  untested = r.untested;
  avg_latency_ms = r.avg_latency_ms;
  best_latency_ms = r.best_latency_ms;
}

-- `h.back()`.
abbrev pub back : List TrendPoint → Option TrendPoint
back [] = none
back (p ∷ []) = some p
back (p ∷ q ∷ h) = back (q ∷ h)

abbrev pub is_recent : ℕ → List TrendPoint → Bool
is_recent now h = elim (back h) [ none ↦ false | some p ↦ ltb (now - p.t) 60000 ]

-- `while h.len() > 240`.
unfoldable pub trim_history : List TrendPoint → List TrendPoint
trim_history [] = []
trim_history (p ∷ h) = let rest = trim_history h in if ltb 240 (suc (length h)) then rest else p ∷ h

unfoldable pub sample : ℕ → DashboardResp → List TrendPoint → List TrendPoint
unfolding trim_history
sample now r h =
    let longer = trim_history (h ++ trend_point now r ∷ []) in if is_recent now h then h else longer

-- The handler: the answer and the history.
unfoldable pub dashboard :
    Unicode → Arithmetic → ℕ → List Subscription → List TrendPoint → DashboardResp × List TrendPoint
unfolding summarised sample
dashboard u a now store h = let r = summarised u a store in (r, sample now r h)
