-- ===== src/Server/Backup/Restore.antt =====
-- Importing what the same store has exported.
use mathlib.Core.Option.{some_inj}
use mathlib.Core.Path.{ap, ◌∙◌, subst}
use sub_hub.Common.{
  ℕ, zero, suc, ◌+◌, ◌≡◌, refl, sym, false, some, List, [], ◌∷◌, Text, map, length, get_elem?, All,
  is_empty, trim, arith,
}
use sub_hub.Model.Subscription.{Subscription, Counters, new_subscription}
use sub_hub.Server.Backup.{
  Import, SubExportItem, export_item, export_subscriptions, by_url_from, target, restored,
  replacing, replace_at, place, incoming, import_one, import_from, import_subscriptions, kept_uid,
}
use sub_hub.Server.Backup.Targets.{key, IsRestorable, get_elem?-map, map-set_at, target-export_item}

-- The subscriptions stand in the store.
abbrev Within : List Subscription → List Subscription → Type 0
Within store = All (λ s. (j : ℕ) × (get_elem? store j ≡ some s))

Within-Rest :
    (store ss : List Subscription) (i : ℕ)
    → ((j n : ℕ) → i + j ≡ n → get_elem? ss j ≡ get_elem? store n)
    → Within store ss
Within-Rest store [] i h = tt
Within-Rest store (s ∷ ss) i h = (
  (i, sym (h 0 i (omega arith))),
  Within-Rest store ss (suc i) (λ j n e. h (suc j) n (omega (arith, e))),
)

All-get_elem? {ℓ κ} :
    {A : Type ℓ} (P : A → Type κ) (xs : List A) (i : ℕ) (x : A)
    → All P xs
    → get_elem? xs i ≡ some x
    → P x
All-get_elem? P [] i x h e = absurd (ground (arith, e))
All-get_elem? P (y ∷ xs) zero x h e = subst P (some_inj.0 e) h.0
All-get_elem? P (y ∷ xs) (suc i) x h e = All-get_elem? P xs i x h.1 e

kept_uid-nonblank :
    (existing backup new : Text)
    → is_empty (trim existing) ≡ false
    → kept_uid existing backup new ≡ existing
unfolding trim
kept_uid-nonblank [] backup new h = absurd (ground (arith, h))
kept_uid-nonblank (c ∷ s) backup new h = refl

source-incoming :
    (clock : ℕ → ℕ) (now : ℕ) (it : SubExportItem) (c : Counters)
    → (incoming clock now it c).0.source ≡ it.source
unfolding incoming restored new_subscription
source-incoming clock now it c = refl

key-replacing :
    (it : SubExportItem) (old sub : Subscription)
    → is_empty (trim old.uid) ≡ false
    → sub.source ≡ old.source
    → key (replacing it old sub) ≡ key old
unfolding replacing
key-replacing it old sub h e = cc (kept_uid-nonblank old.uid it.uid sub.uid h, e)

module _ (store : List Subscription) (h : All IsRestorable (map key store)) where
  -- The invariant of the loop, after `done` entries.
  abbrev Unmoved : ℕ → Import → Type 0
  Unmoved done m =
      (m.by_url ≡ by_url_from 0 store)
      × (map key m.guard ≡ map key store)
      × (m.added ≡ 0)
      × (m.replaced ≡ done)

  place-Unmoved :
      (s sub : Subscription) (done : ℕ) (m : Import)
      → (j : ℕ) × (get_elem? store j ≡ some s)
      → sub.source ≡ s.source
      → Unmoved done m
      → (m' : Import) × (place (export_item s) sub (target m.by_url m.guard (export_item s)) m
          ≡ some m')
        × Unmoved (suc done) m'
  unfolding place replace_at
  place-Unmoved s sub done m (j, at) e u =
      let restorable =
        All-get_elem? IsRestorable (map key store) j (key s) h (get_elem?-map key store j s at) in
      let (i, old, hit, here, source) = target-export_item store m.guard j s u.1 at restorable in
      let old-IsRestorable =
        All-get_elem? IsRestorable (map key store) i (key old) h
          (ap (λ l. get_elem? l i) (sym u.1) ∙ get_elem?-map key m.guard i old here) in
      let new = replacing (export_item s) old sub in
      let kept = key-replacing (export_item s) old sub old-IsRestorable.0 (e ∙ sym source) in
      let hit' : target m.by_url m.guard (export_item s) ≡ some i =
        ap (λ b. target b m.guard (export_item s)) u.0 ∙ hit in
      (
        replace_at i (export_item s) old sub m,
        rw (hit', place, here) refl,
        (u.0, map-set_at key m.guard i old new here kept ∙ u.1, u.2, omega (arith, u.3)),
      )

  import_from-Unmoved :
      (clock : ℕ → ℕ) (now : ℕ) (ss : List Subscription) (done n : ℕ) (m : Import)
      → done + length ss ≡ n
      → Within store ss
      → Unmoved done m
      → (m' : Import) × (import_from clock now (map export_item ss) m ≡ some m') × Unmoved n m'
  unfolding import_from import_one export_item
  import_from-Unmoved clock now [] done n m e w u =
      (m, refl, (u.0, u.1, u.2, omega (arith, e, u.3)))
  import_from-Unmoved clock now (s ∷ ss) done n m e w u =
      let made = incoming clock now (export_item s) m.counters in
      let (m₁, e₁, u₁) =
        place-Unmoved s made.0 done (record m { counters = made.1 }) w.0
          (source-incoming clock now (export_item s) m.counters) u in
      let (m₂, e₂, u₂) =
        import_from-Unmoved clock now ss (suc done) n m₁ (omega (arith, e)) w.1 u₁ in
      (m₂, rw (import_from, import_one, e₁) e₂, u₂)

-- Importing into a store the backup that was exported from it, where each subscription has a uid
-- and is pasted or of a URL: no entry is added, every entry replaces one, and each position keeps
-- its id, its uid and its source.
pub import_subscriptions-export_subscriptions :
    (clock : ℕ → ℕ) (now : ℕ) (store : List Subscription) (c : Counters)
    → All IsRestorable (map key store)
    → (m : Import) × (import_subscriptions clock now (export_subscriptions store) store c ≡ some m)
      × (m.added ≡ 0)
      × (m.replaced ≡ length store)
      × (map key m.guard ≡ map key store)
unfolding import_subscriptions export_subscriptions
import_subscriptions-export_subscriptions clock now store c h =
    let start : Import = record {
      guard = store;
      by_url = by_url_from 0 store;
      counters = c;
      added = 0;
      replaced = 0;
    } in
    let (m, e, u) =
      import_from-Unmoved store h clock now store 0 (length store) start (omega arith)
        (Within-Rest store store 0 (λ j n o. ap (get_elem? store) (omega (arith, o))))
        (refl, refl, refl, refl) in
    (m, e, u.2, u.3, u.1)
