-- ===== src/Server/Maintenance/Cleanup.antt =====
-- What the maintenance operations remove.
use sub_hub.Common.{
  ℕ, true, ◌≢◌, ◌⊎◌, suc, or_else, Option, none, sym, ◌∙◌, ◌+◌, ◌-◌, ◌*◌, ◌^◌, ◌≤◌, ◌<◌, ◌≡◌, refl,
  ◌↔◌, Bool, false, not, some, List, [], ◌∷◌, length, retain, any, All, Bool-cases, Option-cases,
  arith, inl, inr, ◌==◌,
}
use sub_hub.Model.Proxy.{Proxy, is_alive, is_dead}
use sub_hub.Model.Health.Recompute.{count_where, is_untested, recompute-counts, count_where-length}
use sub_hub.Model.Health.{SubscriptionHealth}
use sub_hub.Model.Subscription.{Subscription}
use sub_hub.Server.Maintenance.{
  clean_subscription, saturating_mul, day_ms, reference_time, keeps_subscription,
  prune_dead_subscriptions, clamp_schedule, min_scheduler_sec,
}

retain-not-count :
    (ps : List Proxy)
    → (length (retain (λ p. not (is_dead p.available)) ps) + count_where is_dead ps ≡ length ps)
      × (count_where is_dead (retain (λ p. not (is_dead p.available)) ps) ≡ 0)
      × (count_where is_alive (retain (λ p. not (is_dead p.available)) ps)
          ≡ count_where is_alive ps)
      × (count_where is_untested (retain (λ p. not (is_dead p.available)) ps)
          ≡ count_where is_untested ps)
unfolding count_where
retain-not-count [] = omega arith
retain-not-count (p ∷ ps) = ground (arith, retain-not-count ps)

-- The dead nodes are gone from a cleaned subscription, as many as are reported; the available and
-- the untested ones remain, and if a node went the stored counts are those of the remaining nodes.
clean_subscription_removes :
    (sub : Subscription)
    → ((clean_subscription sub).1 ≡ count_where is_dead sub.proxies)
      × (count_where is_dead (clean_subscription sub).0.proxies ≡ 0)
      × (count_where is_alive (clean_subscription sub).0.proxies ≡ count_where is_alive sub.proxies)
      × (count_where is_untested (clean_subscription sub).0.proxies
          ≡ count_where is_untested sub.proxies)
      × (0 < (clean_subscription sub).1
          → ((clean_subscription sub).0.health.node_count
              ≡ length (clean_subscription sub).0.proxies)
            × ((clean_subscription sub).0.health.healthy_node_count
                ≡ count_where is_alive sub.proxies))
unfolding clean_subscription
clean_subscription_removes sub =
    let kept = retain (λ p. not (is_dead p.available)) sub.proxies in
    ground (
      arith,
      retain-not-count sub.proxies,
      recompute-counts sub.health kept,
      count_where-length kept,
    )

-- The first of three times that is known.
unfoldable pub first_known : Option ℕ → Option ℕ → Option ℕ → Option ℕ
first_known (some t) u v = some t
first_known none (some u) v = some u
first_known none none v = v

-- Why a subscription may be removed: no node is alive, and the last time that it had an alive node, or
-- if that is not known its last check, or else its last update, lies at least the given days back.
pub record Expired (days now : ℕ) (sub : Subscription) : Type 0 where
  pub none_alive : All (λ p. p.available ≢ some true) sub.proxies
  pub since : ℕ
  pub recorded :
      first_known sub.health.last_healthy_at sub.health.last_checked_at sub.health.last_updated_at
      ≡ some since
  pub long_ago : days * 86400000 ≤ now - since

-- Exactly the expired subscriptions are taken out, so many of them, and the others keep their order.
abbrev pub Swept : ℕ → ℕ → List Subscription → List Subscription → ℕ → Type 0
Swept days now [] kept n = (kept ≡ []) × (n ≡ 0)
Swept days now (s ∷ ss) kept n =
    (Expired days now s × (m : ℕ) × (n ≡ suc m) × Swept days now ss kept m)
    ⊎ ((¬ (Expired days now s))
        × (ks : List Subscription) × (kept ≡ s ∷ ks)
        × Swept days now ss ks n)

first_known-reference_time :
    (h : SubscriptionHealth)
    → reference_time h ≡ first_known h.last_healthy_at h.last_checked_at h.last_updated_at
unfolding reference_time
first_known-reference_time h = three h.last_healthy_at h.last_checked_at h.last_updated_at
  where
    three : (a b c : Option ℕ) → or_else (or_else a b) c ≡ first_known a b c
    three (some a) b c = unfold first_known in refl
    three none (some b) c = unfold first_known in refl
    three none none c = unfold first_known in refl

All-not_alive :
    (ps : List Proxy)
    → any (λ p. is_alive p.available) ps ≡ false
    → All (λ p. p.available ≢ some true) ps
All-not_alive [] h = tt
All-not_alive (p ∷ ps) h = (λ e. absurd (ground (arith, e)), All-not_alive ps (ground arith))

any-not_alive :
    (ps : List Proxy)
    → All (λ p. p.available ≢ some true) ps
    → any (λ p. is_alive p.available) ps ≡ false
any-not_alive [] h = refl
any-not_alive (p ∷ ps) h = elim (Bool-cases (is_alive p.available)) [
  | inl e ↦ absurd (h.0 (ground (arith, e)))
  | inr e ↦ rw e (any-not_alive ps h.1)
]

module _ (days now : ℕ) (small : days * 86400000 < 2 ^ 64) where
  keeps_subscription-Expired :
      (sub : Subscription)
      → keeps_subscription now (saturating_mul days day_ms) sub ≡ false
      → Expired days now sub
  unfolding keeps_subscription
  keeps_subscription-Expired sub h = elim (Option-cases (reference_time sub.health)) [
    | inl e ↦ absurd (ground arith)
    | inr (t, e) ↦ record {
      none_alive = All-not_alive sub.proxies (ground arith);
      since = t;
      recorded = sym (first_known-reference_time sub.health) ∙ e;
      long_ago = ground arith;
    }
  ]

  Expired-keeps_subscription :
      (sub : Subscription)
      → Expired days now sub
      → keeps_subscription now (saturating_mul days day_ms) sub ≡ false
  unfolding keeps_subscription
  Expired-keeps_subscription sub x = ground (
    arith,
    first_known-reference_time sub.health ∙ x.recorded,
    any-not_alive sub.proxies x.none_alive,
    x.long_ago,
  )

  length-retain :
      (f : Subscription → Bool) (subs : List Subscription) → length (retain f subs) ≤ length subs
  length-retain f [] = omega arith
  length-retain f (s ∷ ss) = ground (arith, length-retain f ss)

  retain-Swept :
      (subs : List Subscription) (n : ℕ)
      → length (retain (keeps_subscription now (saturating_mul days day_ms)) subs) + n ≡ length subs
      → Swept days now subs (retain (keeps_subscription now (saturating_mul days day_ms)) subs) n
  retain-Swept [] n h = (refl, omega (arith, h))
  retain-Swept (s ∷ ss) n h =
      let keeps = keeps_subscription now (saturating_mul days day_ms) in
      elim (Bool-cases (keeps s)) [
        | inl e ↦
            let m : length (retain keeps ss) + n ≡ length ss = ground (arith, h, e) in
            rw e (
              inr (
                (λ x. absurd (ground (arith, Expired-keeps_subscription s x, e))),
                retain keeps ss,
                refl,
                retain-Swept ss n m,
              ))
        | inr e ↦
            let m : length (retain keeps ss) + n ≡ suc (length ss) = ground (arith, h, e) in
            rw e (
              inl (
                keeps_subscription-Expired s e,
                n - 1,
                omega (arith, length-retain keeps ss, m),
                retain-Swept ss (n - 1) (omega (arith, length-retain keeps ss, m)),
              ))
      ]

-- With a positive number of days that fits in 64 bits as milliseconds, exactly the expired
-- subscriptions are removed: those without an alive node whose last alive time, or else last check,
-- or else last update, lies at least so many days of 86,400,000 milliseconds back. The others stay
-- in their order, and the count reported is that of the removed ones.
pub prune_dead_subscriptions_removes :
    (days now : ℕ) (subs : List Subscription)
    → 0 < days
    → days * 86400000 < 2 ^ 64
    → Swept days now subs
        (prune_dead_subscriptions days now subs).0
        (prune_dead_subscriptions days now subs).1
unfolding prune_dead_subscriptions
prune_dead_subscriptions_removes days now subs some_days small =
    let test : (days == 0) ≡ false = ground arith in
    rw test (
      retain-Swept days now small subs _ (
        omega (
          arith,
          length-retain days now small (keeps_subscription now (saturating_mul days day_ms)) subs,
        )))

-- An interval of the scheduler is off exactly if it was given as 0, and is otherwise the given one
-- or the minimum, whichever is larger; clamping again changes nothing.
clamp_schedule_bounds :
    (sec : ℕ)
    → ((clamp_schedule sec ≡ 0) ↔ (sec ≡ 0))
      × (0 < sec → (min_scheduler_sec ≤ clamp_schedule sec) × (sec ≤ clamp_schedule sec))
      × (min_scheduler_sec ≤ sec → clamp_schedule sec ≡ sec)
      × (clamp_schedule (clamp_schedule sec) ≡ clamp_schedule sec)
unfolding clamp_schedule
clamp_schedule_bounds sec =
    ((λ e. ground arith, λ e. ground arith), λ h. ground arith, λ h. ground arith, ground arith)
