-- ===== src/Server/Query/Percent.antt =====
-- The share of healthy nodes in a summary (server/src/lib.rs).
use sub_hub.Common.{ℕ, ◌*◌, ◌/◌, ◌<◌, ◌≤◌, ◌≡◌, some, arith}
use sub_hub.Model.Health.{recompute}
use sub_hub.Model.Health.Recompute.{recompute-counts}
use sub_hub.Model.Subscription.{Subscription}
use sub_hub.Server.Query.{health_percent, sub_to_summary}

div-le-hundred : (h c : ℕ) → h ≤ c → 0 < c → h * 100 / c ≤ 100
div-le-hundred h c le pos = grind arith

health_percent_bounds :
    (h c p : ℕ) → h ≤ c → health_percent h c ≡ some p → (p ≤ 100) × (p ≡ h * 100 / c) × (0 < c)
unfolding health_percent
health_percent_bounds h c p le e = ground (arith, div-le-hundred h c)

-- The share of healthy nodes in a summary, if it is shown, is that of a subscription with nodes, at
-- most 100, and the percentage rounded down: the cast to eight bits cuts nothing off.
pub sub_to_summary-percent :
    (s : Subscription) (p : ℕ)
    → (sub_to_summary s).health_pct ≡ some p
    → (p ≤ 100)
      × (p ≡ (sub_to_summary s).healthy * 100 / (sub_to_summary s).count)
      × (0 < (sub_to_summary s).count)
unfolding sub_to_summary
sub_to_summary-percent s p e =
    let (alive, untested, total, error, at) = recompute-counts s.health s.proxies in
    health_percent_bounds (recompute s.health s.proxies).healthy_node_count
      (recompute s.health s.proxies).node_count p (omega arith) e
