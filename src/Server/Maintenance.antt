-- ===== src/Server/Maintenance.antt =====
-- `cleanup_bad` and `prune_dead_subscriptions` (server/src/handlers/maintenance.rs), and the small
-- decisions of the settings (server/src/lib.rs). Saving the store afterwards is `Snapshot`'s.
pub mod Cleanup
use Prim.Native.Nat.{min}
use sub_hub.Common.{
  ℕ, ◌+◌, ◌-◌, ◌*◌, ◌^◌, Bool, true, false, not, ◌&&◌, ◌||◌, Option, none, some, List, [], ◌∷◌,
  Text, lit, length, ltb, leb, retain, any, is_some, or_else, text_eq, trim, to_ascii_lowercase,
  ◌==◌, if◌then◌else◌,
}
use sub_hub.Model.Proxy.{Proxy, is_alive, is_dead}
use sub_hub.Model.Health.{SubscriptionHealth, recompute}
use sub_hub.Model.Subscription.{Subscription}

-- The loop's body: the subscription, and how many nodes are gone.
unfoldable pub clean_subscription : Subscription → Subscription × ℕ
clean_subscription sub =
    let kept = retain (λ p. not (is_dead p.available)) sub.proxies in
    let gone = length sub.proxies - length kept in
    let health = if ltb 0 gone then recompute sub.health kept else sub.health in
    (record sub { proxies = kept; health = health }, gone)

unfoldable pub cleanup_bad : List Subscription → List Subscription × ℕ
unfolding clean_subscription
cleanup_bad [] = ([], 0)
cleanup_bad (sub ∷ subs) =
    let (sub', gone) = clean_subscription sub in
    let (subs', rest) = cleanup_bad subs in (sub' ∷ subs', gone + rest)

abbrev pub day_ms : ℕ
day_ms = 24 * 60 * 60 * 1000

abbrev pub saturating_mul : ℕ → ℕ → ℕ
saturating_mul a b = min (a * b) (2 ^ 64 - 1)

-- `ref_time`: the last time with an alive node, or else the last check, or else the last update.
unfoldable pub reference_time : SubscriptionHealth → Option ℕ
reference_time h = or_else (or_else h.last_healthy_at h.last_checked_at) h.last_updated_at

-- The test of `retain`. `now.saturating_sub(t)` is the truncated difference.
unfoldable pub keeps_subscription : ℕ → ℕ → Subscription → Bool
keeps_subscription now cutoff_ms sub =
    any (λ p. is_alive p.available) sub.proxies
    || elim (reference_time sub.health) [ none ↦ true | some t ↦ ltb (now - t) cutoff_ms ]

-- The new store, and how many subscriptions were removed.
unfoldable pub prune_dead_subscriptions : ℕ → ℕ → List Subscription → List Subscription × ℕ
unfolding keeps_subscription
prune_dead_subscriptions days now subs =
    let kept = retain (keeps_subscription now (saturating_mul days day_ms)) subs in
    if days == 0 then (subs, 0) else (kept, length subs - length kept)

abbrev pub min_scheduler_sec : ℕ
min_scheduler_sec = 60

unfoldable pub clamp_schedule : ℕ → ℕ
clamp_schedule sec =
    if sec == 0 then 0 else if ltb sec min_scheduler_sec then min_scheduler_sec else sec

-- `resolve_top_n`.
unfoldable pub resolve_top_n : Option ℕ → ℕ → Option ℕ
resolve_top_n (some n) global = if n == 0 then none else some n
resolve_top_n none global = if ltb 0 global then some global else none

unfoldable pub parse_desc : Option Text → Bool
parse_desc none = false
parse_desc (some v) =
    let s = to_ascii_lowercase (trim v) in
    text_eq s (lit "1") || text_eq s (lit "true") || text_eq s (lit "yes")

unfoldable pub apply_mode : List Proxy → Text → List Proxy
apply_mode proxies mode =
    if text_eq mode (lit "untested")
    then retain (λ p. not (is_some p.tcp_latency_ms) && not (is_some p.http_latency_ms)) proxies
    else if text_eq mode (lit "failed")
    then retain (λ p. is_dead p.available) proxies
    else proxies
