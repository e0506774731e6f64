-- ===== src/Examples/Lists.antt =====
-- Theorems about the list of nodes and the dashboard at concrete inputs.
use mathlib.Core.List.{Perm}
use sub_hub.Common.{ℕ, ◌+◌, ◌≡◌, refl, none, some, List, [], ◌∷◌, lit, length, retain, arith}
use sub_hub.Model.Subscription.{Subscription}
use sub_hub.Server.Selection.{flatten_dedup}
use sub_hub.Server.Nodes.{
  ListQuery, list_proxies, sorted_rows, all_rows, sub_rows, is_listed, needle_of,
}
use sub_hub.Server.Nodes.Pages.{pages, asking, list_proxies-pages}
use sub_hub.Server.Dashboard.{dashboard, back, summarised}
use sub_hub.Server.Dashboard.Counts.{entry, of_type, of_region, alive, dead, summarised-counts}
use sub_hub.Server.Dashboard.Spaced.{Kept, UpToDate, asked, dashboard-Kept}
use sub_hub.Examples.Samples as Samples
use sub_hub.Examples.Samples.{ascii, first_operand, node, stored}

abbrev store : List Subscription
store =
    stored (lit "sub_1") (lit "http://a")
      (node (lit "c") ∷ Samples.dead (lit "a") ∷ Samples.alive (lit "b") 7 ∷ [])
    ∷ []

abbrev query : ListQuery
query = record {
  type_ = none;
  region = none;
  q = none;
  page = none;
  page_size = none;
  sort = some (lit "latency");
  desc = none;
}

three_rows : length (all_rows ascii first_operand query store) ≡ 3
unfolding all_rows sub_rows is_listed needle_of
three_rows = refl

list_proxies-pages_example :
    (pages (λ i. (list_proxies ascii first_operand (asking query 2 i) store).items) 2
      ≡ sorted_rows ascii first_operand query store)
    × Perm (sorted_rows ascii first_operand query store) (all_rows ascii first_operand query store)
list_proxies-pages_example =
    list_proxies-pages ascii first_operand query store 2 2 (omega arith) (omega arith) (omega arith)
      (omega (arith, three_rows))

summarised-counts_example :
    (entry (lit "ss") (summarised ascii first_operand store).by_type
      ≡ length (retain (of_type (lit "ss")) (flatten_dedup none store)))
    × (entry (lit "ss") (summarised ascii first_operand store).by_region
        ≡ length (retain (of_region ascii (lit "ss")) (flatten_dedup none store)))
    × ((summarised ascii first_operand store).available
        ≡ length (retain alive (flatten_dedup none store)))
    × ((summarised ascii first_operand store).unavailable
        ≡ length (retain dead (flatten_dedup none store)))
    × ((summarised ascii first_operand store).available
          + (summarised ascii first_operand store).unavailable
          + (summarised ascii first_operand store).untested
        ≡ (summarised ascii first_operand store).total)
summarised-counts_example = summarised-counts ascii first_operand store (lit "ss")

-- Requests at 0, 1 and 70 seconds, and one after the clock went back.
abbrev requests : List (ℕ × List Subscription)
requests = (0, store) ∷ (1000, []) ∷ (70000, store) ∷ []

dashboard-Kept_example :
    Kept (dashboard ascii first_operand 500 store (asked ascii first_operand requests [])).1
    × UpToDate 500
        (back (dashboard ascii first_operand 500 store (asked ascii first_operand requests [])).1)
dashboard-Kept_example = dashboard-Kept ascii first_operand requests 500 store
