-- ===== src/Model/Subscription/Ids.antt =====
-- Ids that are handed out after a rebase are new.
use sub_hub.Common.{ℕ, zero, suc, ◌+◌, ◌^◌, ◌≤◌, ◌<◌, ◌≡◌, ◌≢◌, arith}
use sub_hub.Common.Decimal.{decimal-injective}
use sub_hub.Model.Subscription.{Counters, sub_id, new_sub_id, rebase_sub_counter}

-- The counters after some ids were handed out.
unfoldable pub after_ids : ℕ → Counters → Counters
after_ids zero c = c
after_ids (suc n) c = after_ids n (new_sub_id c).1

after_ids-counter :
    (n : ℕ) (c : Counters)
    → c.sub_counter + n < 2 ^ 64
    → (after_ids n c).sub_counter ≡ c.sub_counter + n
unfolding after_ids new_sub_id
after_ids-counter zero c h = omega arith
after_ids-counter (suc n) c h = ground (arith, after_ids-counter n (new_sub_id c).1)

rebase_counter :
    (m : ℕ) (c : Counters)
    → m + 1 < 2 ^ 64
    → (m + 1 ≤ (rebase_sub_counter m c).sub_counter)
      × (c.sub_counter ≤ (rebase_sub_counter m c).sub_counter)
unfolding rebase_sub_counter
rebase_counter m c h = ground arith

sub_id-injective : (m n : ℕ) → m < 2 ^ 64 → n < 2 ^ 64 → sub_id m ≡ sub_id n → m ≡ n
sub_id-injective m n hm hn e = decimal-injective m n hm hn (cc)

-- After a rebase to a largest stored number below 2 ^ 64 - 1, while the counter stays below 2 ^ 64, each id that
-- is handed out differs from `sub_k` for every stored number `k`, and from every id that was handed
-- out since the rebase.
pub new_sub_id_fresh :
    (max : ℕ) (c : Counters) (n : ℕ)
    → max + 1 < 2 ^ 64
    → (rebase_sub_counter max c).sub_counter + n < 2 ^ 64
    → ((k : ℕ) → k ≤ max → (new_sub_id (after_ids n (rebase_sub_counter max c))).0 ≢ sub_id k)
      × ((i : ℕ)
          → i < n
          → (new_sub_id (after_ids n (rebase_sub_counter max c))).0
            ≢ (new_sub_id (after_ids i (rebase_sub_counter max c))).0)
unfolding new_sub_id
new_sub_id_fresh max c n small h =
    let r = rebase_sub_counter max c in
    let base = rebase_counter max c small in
    let at_n = after_ids-counter n r h in
    (
      λ k hk e.
          let same = sub_id-injective (after_ids n r).sub_counter k (omega arith) (omega arith) e in
          omega arith,
      λ i hi e.
          let at_i = after_ids-counter i r (omega arith) in
          let same =
            sub_id-injective (after_ids n r).sub_counter (after_ids i r).sub_counter (omega arith)
              (omega arith) e in
          omega arith,
    )
