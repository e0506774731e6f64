-- ===== src/Examples/Transforms.antt =====
-- Theorems about sorting, filtering, Top-N, updates and names, at concrete inputs.
use mathlib.Core.List.{Perm}
use sub_hub.Common.{
  ◌≡◌, refl, false, none, some, List, [], ◌∷◌, ◌++◌, map, lit, length, retain, contains_text,
  text_eq, contains, join, replace_char, ascii_lower, arith, All,
}
use sub_hub.Common.Float.{is_nan, float_lt, order_key}
use sub_hub.Common.Sort.{Sorted}
use sub_hub.Common.Decimal.{decimal}
use sub_hub.Model.Proxy.{Proxy, is_usable, as_str}
use sub_hub.Model.Fingerprint.{fingerprint, esc}
use sub_hub.Model.Merge.{merge}
use sub_hub.Model.Merge.Dedup.{Distinct, fingerprints}
use sub_hub.Model.Subscription.{Subscription}
use sub_hub.Score.{score_proxy, weigh}
use sub_hub.Ops.Regex.{ok, collect}
use sub_hub.Ops.Transform.{SortBy, FilterRule, Transform, compile_rule, sort_with, apply}
use sub_hub.Ops.Transform.Order.{Rankable, DeadLast, sort_with_sorts}
use sub_hub.Ops.Transform.InOrder.{InOrder}
use sub_hub.Ops.Transform.Pipeline.{accepted, apply-selects}
use sub_hub.Ops.TopN.{top_n_by_score}
use sub_hub.Ops.TopN.Stable.{by_score, fewer, top_n_by_score_best}
use sub_hub.Ops.Update.{incremental_update}
use sub_hub.Ops.Update.Refresh.{survivor, is_new, incremental_update_lem}
use sub_hub.Export.Names.{ensure_unique_names}
use sub_hub.Export.Names.Unique.{Renamed, names, ensure_unique_names_total}
use sub_hub.Server.Selection.Published.{Published}
use sub_hub.Examples.Samples.{ascii, first_operand, substring_engine, alive, dead, stored}

abbrev nodes : List Proxy
nodes = dead (lit "a") ∷ alive (lit "b") 200 ∷ alive (lit "c") 100 ∷ []

nodes-Rankable : All (Rankable first_operand) nodes
unfolding is_nan score_proxy weigh float_lt order_key
nodes-Rankable = (
  record { speed_is_number = refl; score_is_number = refl },
  (
    record { speed_is_number = refl; score_is_number = refl },
    (record { speed_is_number = refl; score_is_number = refl }, tt),
  ),
)

abbrev by_latency : SortBy
by_latency = record { key = lit "latency"; desc = false }

sort_with_sorts_example :
    Perm (sort_with first_operand (some by_latency) nodes) nodes
    × InOrder first_operand by_latency (sort_with first_operand (some by_latency) nodes)
    × DeadLast (sort_with first_operand (some by_latency) nodes)
sort_with_sorts_example = sort_with_sorts first_operand by_latency nodes nodes-Rankable

abbrev no_a : FilterRule
no_a = record { field = lit "name"; mode = lit "exclude"; match_ = lit "regex"; value = lit "a" }

abbrev sorted : Transform
sorted = record {
  filters = no_a ∷ [];
  sort = some by_latency;
  rename = none;
  min_bandwidth_bps = none;
  max_latency_ms = some 150;
}

apply-selects_example :
    (out : List Proxy) × (apply substring_engine ascii first_operand nodes sorted ≡ ok out)
    × Perm out (retain (accepted substring_engine ascii first_operand sorted) nodes)
    × InOrder first_operand by_latency out
    × DeadLast out
unfolding collect compile_rule text_eq contains ascii_lower
apply-selects_example =
    apply-selects substring_engine ascii first_operand sorted by_latency
      ((no_a, some (lit "a"), lit "a") ∷ []) nodes refl refl refl nodes-Rankable

abbrev unclosed : Transform
unclosed = record sorted { rename = some (record { pattern = lit "("; replacement = lit "x" }) }

nodes-scored : All (λ p. is_nan (score_proxy first_operand p) ≡ false) nodes
unfolding is_nan score_proxy weigh float_lt order_key
nodes-scored = (refl, (refl, (refl, tt)))

top_n_by_score_best_example :
    (rest : List Proxy) × Perm
      (top_n_by_score first_operand nodes 1 ++ rest)
      (retain is_usable nodes)
    × Sorted (by_score first_operand) (top_n_by_score first_operand nodes 1 ++ rest)
    × (length (top_n_by_score first_operand nodes 1) ≡ fewer 1 (length (retain is_usable nodes)))
top_n_by_score_best_example = top_n_by_score_best first_operand nodes 1 nodes-scored

abbrev fetched : List Proxy
fetched = alive (lit "b") 5 ∷ alive (lit "d") 7 ∷ alive (lit "b") 6 ∷ []

incremental_update_lem_example :
    incremental_update nodes fetched
    ≡ (map (survivor nodes) (merge fetched), retain (is_new nodes) (merge fetched))
incremental_update_lem_example = incremental_update_lem nodes fetched

nodes-Distinct : Distinct (fingerprints nodes)
unfolding contains_text text_eq fingerprint join as_str esc replace_char decimal
nodes-Distinct = (refl, (refl, (refl, tt)))

abbrev store : List Subscription
store = stored (lit "sub_1") (lit "http://a") nodes ∷ stored (lit "sub_2") (lit "http://b") [] ∷ []

ensure_unique_names_total_example :
    (qs : List Proxy) × (ensure_unique_names fetched ≡ some qs)
    × Distinct (names qs)
    × Renamed [] fetched qs
ensure_unique_names_total_example = ensure_unique_names_total fetched (omega arith)
