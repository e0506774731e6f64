-- ===== src/Model/Health.antt =====
-- `SubscriptionHealth` (core/src/model.rs): the derived counts and the status of a subscription.
pub mod Status
pub mod Recompute
use sub_hub.Common.{
  ℕ, ◌+◌, ◌*◌, ◌/◌, ◌%◌, ◌^◌, Bool, true, false, not, ◌&&◌, Option, none, some, List, [], ◌∷◌, Text,
  lit, length, ltb, ◌==◌, is_some, if◌then◌else◌,
}
use Prim.Native.Nat.{min}
use sub_hub.Model.Proxy.{Proxy, is_dead}

pub record SubscriptionHealth : Type 0 where
  pub enabled : Bool
  pub source_type : Text
  pub last_checked_at : Option ℕ
  pub last_updated_at : Option ℕ
  pub last_healthy_at : Option ℕ
  pub last_error : Option Text
  pub node_count : ℕ
  pub healthy_node_count : ℕ
  pub unknown_node_count : ℕ
  pub avg_latency_ms : Option ℕ
  pub best_latency_ms : Option ℕ
  pub upload : Option ℕ
  pub download : Option ℕ
  pub total : Option ℕ
  pub expire : Option ℕ

-- `u64` arithmetic wraps in a release build.
abbrev pub u64 : ℕ → ℕ
u64 n = n % 2 ^ 64

unfoldable pub status : SubscriptionHealth → Text
status h =
    if not h.enabled
    then lit "disabled"
    else if not (is_some h.last_checked_at)
    then lit "pending"
    else if is_some h.last_error
    then (if not (is_some h.last_updated_at) then lit "error" else lit "degraded")
    else if h.node_count == 0
    then lit "empty"
    else if h.healthy_node_count == 0
    then (if ltb 0 h.unknown_node_count then lit "untested" else lit "down")
    else if ltb 0 h.node_count && ltb (u64 (h.healthy_node_count * 100) / h.node_count) 50
    then lit "degraded"
    else lit "healthy"

-- The variables of the loop of `recompute`.
pub record Tally : Type 0 where
  pub avail : ℕ
  pub unk : ℕ
  pub sum : ℕ
  pub n : ℕ
  pub best : Option ℕ

abbrev pub no_tally : Tally
no_tally = record { avail = 0; unk = 0; sum = 0; n = 0; best = none }

abbrev count_available : Option Bool → Tally → Tally
count_available (some true) t = record t { avail = t.avail + 1 }
count_available (some false) t = t
count_available none t = record t { unk = t.unk + 1 }

abbrev pub smaller : Option ℕ → ℕ → ℕ
smaller none ms = ms
smaller (some b) ms = min b ms

abbrev count_latency : Option ℕ → Tally → Tally
count_latency none t = t
count_latency (some ms) t = record t {
  sum = u64 (t.sum + ms);
  n = t.n + 1;
  best = some (smaller t.best ms);
}

-- The body of the loop.
unfoldable pub tally_node : Tally → Proxy → Tally
tally_node t p =
    let t' = count_available p.available t in
    if is_dead p.available then t' else count_latency p.latency_ms t'

unfoldable pub tally : Tally → List Proxy → Tally
tally t [] = t
tally t (p ∷ ps) = tally (tally_node t p) ps

-- `sum.checked_div(n)`.
abbrev pub checked_div : ℕ → ℕ → Option ℕ
checked_div a b = if b == 0 then none else some (a / b)

unfoldable pub recompute : SubscriptionHealth → List Proxy → SubscriptionHealth
recompute h proxies =
    let t = tally no_tally proxies in
    record h {
      node_count = length proxies;
      healthy_node_count = t.avail;
      unknown_node_count = t.unk;
      avg_latency_ms = checked_div t.sum t.n;
      best_latency_ms = t.best;
    }
