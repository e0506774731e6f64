-- ===== src/Model/Health/Status.antt =====
-- When `SubscriptionHealth::status` calls a subscription healthy.
use sub_hub.Common.{
  ℕ, ◌*◌, ◌/◌, ◌≤◌, ◌<◌, ◌^◌, ◌≡◌, ◌↔◌, Bool, true, false, lit, is_some, arith, text_eq, eq→text_eq,
}
use sub_hub.Model.Health.{SubscriptionHealth, status}

is_healthy : SubscriptionHealth → Bool
unfolding status text_eq
is_healthy h = text_eq (status h) (lit "healthy")

-- What the status asks of the record.
pub record Healthy (h : SubscriptionHealth) : Type 0 where
  pub on : h.enabled ≡ true
  pub checked : is_some h.last_checked_at ≡ true
  pub succeeded : is_some h.last_error ≡ false
  pub some_alive : 0 < h.healthy_node_count
  pub some_nodes : 0 < h.node_count
  pub half_alive : h.node_count ≤ 2 * h.healthy_node_count

half_iff : (a n : ℕ) → 0 < n → (50 ≤ a * 100 / n) ↔ (n ≤ 2 * a)
half_iff a n h = (λ k. grind arith, λ k. grind arith)

is_healthy-Healthy :
    (h : SubscriptionHealth) → h.healthy_node_count * 100 < 2 ^ 64 → is_healthy h ≡ true → Healthy h
unfolding is_healthy
is_healthy-Healthy h small e = ground (arith, half_iff h.healthy_node_count h.node_count)

Healthy-is_Healthy :
    (h : SubscriptionHealth)
    → h.healthy_node_count * 100 < 2 ^ 64
    → Healthy h
    → status h ≡ lit "healthy"
unfolding status
Healthy-is_Healthy h small e = ground (arith, half_iff h.healthy_node_count h.node_count)

-- With at most 2 ^ 64 / 100 nodes alive, the status is `healthy` exactly for an enabled subscription
-- that was checked, whose last check did not fail, and half of whose nodes at least, and one at
-- least, are alive.
status-Healthy_iff :
    (h : SubscriptionHealth)
    → h.healthy_node_count * 100 < 2 ^ 64
    → (status h ≡ lit "healthy") ↔ Healthy h
unfolding is_healthy
status-Healthy_iff h small = (
  λ e. is_healthy-Healthy h small (eq→text_eq (status h) (lit "healthy") e),
  Healthy-is_Healthy h small,
)
