-- ===== src/Server/Persist/Removal.antt =====
-- What `persist_results` removes, and what it keeps of each subscription.
use mathlib.Core.Path.{ap}
use sub_hub.Common.{
  ℕ, lt→ltb, zero, ◌<◌, ◌⊎◌, ◌-◌, some, none, any, if◌then◌else◌, suc, ◌+◌, ◌≤◌, ◌≡◌, refl, Bool,
  true, false, Option, List, [], ◌∷◌, map, Text, length, retain, Bool-cases, arith, inl, inr,
}
use sub_hub.Common.Float.{F64}
use sub_hub.Model.Proxy.{Proxy, is_dead, is_alive}
use sub_hub.Model.Subscription.{Subscription}
use sub_hub.SpeedTest.{SpeedTestResult}
use sub_hub.Server.Persist.{
  rows, PersistRow, Settings, update_proxy, stays, prune_failed, update_subscription, update_all,
  persist_results,
}

-- All nodes of the store.
unfoldable pub total_nodes : List Subscription → ℕ
total_nodes [] = 0
total_nodes (s ∷ ss) = length s.proxies + total_nodes ss

pub length-retain-le : (f : Proxy → Bool) (ps : List Proxy) → length (retain f ps) ≤ length ps
length-retain-le f [] = omega arith
length-retain-le f (p ∷ ps) = ground (arith, length-retain-le f ps)

pub length-map : (f : Proxy → Proxy) (ps : List Proxy) → length (map f ps) ≡ length ps
length-map f [] = refl
length-map f (p ∷ ps) = ap suc (length-map f ps)

length-prune_failed-le : (t : ℕ) (ps : List Proxy) → length (prune_failed t ps) ≤ length ps
unfolding prune_failed
length-prune_failed-le t ps = ground (arith, length-retain-le (stays t) ps)

module _ (s : Settings) (by_fp : List (Text × PersistRow)) where
  update_subscription-count :
      (sub : Subscription)
      → length (update_subscription s by_fp sub).0.proxies + (update_subscription s by_fp sub).1
        ≡ length sub.proxies
  unfolding update_subscription
  update_subscription-count sub =
      let updated = map (update_proxy s by_fp) sub.proxies in
      omega (
        arith,
        length-map (update_proxy s by_fp) sub.proxies,
        length-prune_failed-le s.remove_after_fails updated,
      )

  update_all-count :
      (subs : List Subscription)
      → total_nodes (update_all s by_fp subs).0 + (update_all s by_fp subs).1 ≡ total_nodes subs
  unfolding update_all total_nodes
  update_all-count [] = refl
  update_all-count (sub ∷ subs) =
      omega (arith, update_subscription-count sub, update_all-count subs)

-- The nodes that are removed and the nodes that remain make up the nodes that were stored.
persist_results-count :
    (s : Settings) (proxies : List Proxy) (tcp : List SpeedTestResult)
    (http : List (Option (Option ℕ))) (bw : List (Option (Option F64))) (store : List Subscription)
    → total_nodes (persist_results s proxies tcp http bw store).0
        + (persist_results s proxies tcp http bw store).1
      ≡ total_nodes store
unfolding persist_results
persist_results-count s proxies tcp http bw store = update_all-count s _ store

-- Why a node is removed: a threshold is set, the node was found unavailable, and it has failed at least
-- so many times in a row.
pub record Failed (t : ℕ) (p : Proxy) : Type 0 where
  pub is_set : 0 < t
  pub unavailable : p.available ≡ some false
  pub often : t ≤ p.consecutive_failures

-- Exactly the failed nodes are taken out, so many of them, and the others keep their order.
abbrev pub Weeded : ℕ → List Proxy → List Proxy → ℕ → Type 0
Weeded t [] kept n = (kept ≡ []) × (n ≡ 0)
Weeded t (p ∷ ps) kept n =
    (Failed t p × (m : ℕ) × (n ≡ suc m) × Weeded t ps kept m)
    ⊎ ((¬ (Failed t p)) × (ks : List Proxy) × (kept ≡ p ∷ ks) × Weeded t ps ks n)

-- What a subscription becomes, with the number of nodes that were taken out.
pub record Written (s : Settings) (f : Proxy → Proxy) (old new : Subscription) (n : ℕ)
    : Type 0 where
  pub weeded : Weeded s.remove_after_fails (map f old.proxies) new.proxies n
  pub healthy_at : new.health.last_healthy_at ≡ (
      if any (λ p. is_alive p.available) new.proxies
      then some s.now
      else old.health.last_healthy_at)
  pub same_id : new.id ≡ old.id
  pub same_uid : new.uid ≡ old.uid
  pub same_name : new.name ≡ old.name
  pub same_source : new.source ≡ old.source

-- Every subscription stands in its place, and the numbers add up.
abbrev pub AllWritten :
    Settings → (Proxy → Proxy) → List Subscription → List Subscription → ℕ → Type 0
AllWritten s f [] new n = (new ≡ []) × (n ≡ 0)
AllWritten s f (sub ∷ subs) new n =
    (sub' : Subscription) × (rest : List Subscription) × (m : ℕ) × (k : ℕ) × (new ≡ sub' ∷ rest)
    × (n ≡ m + k)
    × Written s f sub sub' m
    × AllWritten s f subs rest k

dead_unavailable : (o : Option Bool) → is_dead o ≡ true → o ≡ some false
dead_unavailable none h = cc
dead_unavailable (some true) h = cc
dead_unavailable (some false) h = refl

stays-Failed : (t : ℕ) (p : Proxy) → 0 < t → stays t p ≡ false → Failed t p
unfolding stays
stays-Failed t p h e = record {
  is_set = h;
  unavailable = dead_unavailable p.available (ground arith);
  often = ground arith;
}

Failed-stays : (t : ℕ) (p : Proxy) → Failed t p → stays t p ≡ false
unfolding stays
Failed-stays t p f = rw f.unavailable (ground (arith, f.often))

retain-Weeded :
    (t : ℕ) (ps : List Proxy) (n : ℕ)
    → 0 < t
    → length (retain (stays t) ps) + n ≡ length ps
    → Weeded t ps (retain (stays t) ps) n
retain-Weeded t [] n set h = (refl, omega (arith, h))
retain-Weeded t (p ∷ ps) n set h = elim (Bool-cases (stays t p)) [
  | inl e ↦
      let m : length (retain (stays t) ps) + n ≡ length ps = ground (arith, h, e) in
      rw e (
        inr (
          (λ f. absurd (ground (arith, Failed-stays t p f, e))),
          retain (stays t) ps,
          refl,
          retain-Weeded t ps n set m,
        ))
  | inr e ↦
      let m : length (retain (stays t) ps) + n ≡ suc (length ps) = ground (arith, h, e) in
      let less = length-retain-le (stays t) ps in
      rw e (
        inl (
          stays-Failed t p set e,
          n - 1,
          omega (arith, less, m),
          retain-Weeded t ps (n - 1) set (omega (arith, less, m)),
        ))
]

-- Without a threshold every node stays.
all-Weeded : (ps : List Proxy) → Weeded 0 ps ps 0
all-Weeded [] = (refl, refl)
all-Weeded (p ∷ ps) = inr ((λ f. absurd (omega (arith, f.is_set))), ps, refl, all-Weeded ps)

prune_failed-Weeded :
    (t : ℕ) (ps : List Proxy)
    → Weeded t ps (prune_failed t ps) (length ps - length (prune_failed t ps))
unfolding prune_failed
prune_failed-Weeded zero ps =
    let none_left : length ps - length ps ≡ 0 = omega arith in rw none_left (all-Weeded ps)
prune_failed-Weeded (suc t) ps =
    let set : 0 < suc t = omega arith in
    let rest = retain (stays (suc t)) ps in
    rw (lt→ltb 0 (suc t) set) (
      retain-Weeded (suc t) ps (length ps - length rest) set
        (omega (arith, length-retain-le (stays (suc t)) ps)))

module _ (s : Settings) (by_fp : List (Text × PersistRow)) where
  update_subscription-Written :
      (sub : Subscription)
      → Written s
          (update_proxy s by_fp)
          sub
          (update_subscription s by_fp sub).0
          (update_subscription s by_fp sub).1
  unfolding update_subscription
  update_subscription-Written sub = record {
    weeded = prune_failed-Weeded s.remove_after_fails (map (update_proxy s by_fp) sub.proxies);
    healthy_at = ground arith;
    same_id = refl;
    same_uid = refl;
    same_name = refl;
    same_source = refl;
  }

  update_all-AllWritten :
      (subs : List Subscription)
      → AllWritten s
          (update_proxy s by_fp)
          subs
          (update_all s by_fp subs).0
          (update_all s by_fp subs).1
  unfolding update_all
  update_all-AllWritten [] = (refl, refl)
  update_all-AllWritten (sub ∷ subs) = (
    (update_subscription s by_fp sub).0,
    (update_all s by_fp subs).0,
    (update_subscription s by_fp sub).1,
    (update_all s by_fp subs).1,
    refl,
    refl,
    update_subscription-Written sub,
    update_all-AllWritten subs,
  )

-- After a round every subscription of the store stands in its place with its id, uid, name and source.
-- With a threshold set, exactly those of its updated nodes are gone that were found unavailable and
-- have failed at least so often in a row, the others keep their order, and without one none is gone;
-- the time of its last alive node is now if a node that remains is alive, and else as before. The
-- number that is reported is that of all the removed nodes.
pub persist_results-AllWritten :
    (s : Settings) (proxies : List Proxy) (tcp : List SpeedTestResult)
    (http : List (Option (Option ℕ))) (bw : List (Option (Option F64))) (store : List Subscription)
    → AllWritten s
        (update_proxy s (rows http bw proxies tcp))
        store
        (persist_results s proxies tcp http bw store).0
        (persist_results s proxies tcp http bw store).1
unfolding persist_results
persist_results-AllWritten s proxies tcp http bw store =
    update_all-AllWritten s (rows http bw proxies tcp) store

-- No untested node and no available one is ever removed for its failures.
stays-unless_dead : (t : ℕ) (p : Proxy) → is_dead p.available ≡ false → stays t p ≡ true
unfolding stays
stays-unless_dead t p h = rw h
