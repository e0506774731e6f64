-- ===== src/Examples/Nodes.antt =====
-- Theorems about nodes and lists of nodes, at concrete inputs.
use sub_hub.Common.{All, Text, some, ℕ, ◌≤◌, ◌<◌, ◌≡◌, ◌≢◌, ◌↔◌, List, [], ◌∷◌, lit, arith}
use sub_hub.Model.Proxy.{Proxy}
use sub_hub.Model.Fingerprint.{fingerprint}
use sub_hub.Model.Fingerprint.Separation.{SameIdentity, fingerprint-eq_iff}
use sub_hub.Model.Merge.{merge}
use sub_hub.Model.Merge.Dedup.{Distinct, fingerprints, find, merge_firsts}
use sub_hub.Model.Subscription.{Counters, sub_id, new_sub_id, rebase_sub_counter}
use sub_hub.Model.Subscription.Ids.{after_ids, new_sub_id_fresh}
use sub_hub.Examples.Samples.{node, alive, dead}

fingerprint-eq_iff_example :
    (fingerprint (node (lit "a|b")) ≡ fingerprint (node (lit "a#b")))
    ↔ SameIdentity (node (lit "a|b")) (node (lit "a#b"))
fingerprint-eq_iff_example =
    fingerprint-eq_iff (node (lit "a|b")) (node (lit "a#b")) (omega arith) (omega arith)

abbrev twice : List Proxy
twice = alive (lit "a") 100 ∷ dead (lit "b") ∷ alive (lit "a") 7 ∷ []

merge_firsts_example :
    Distinct (fingerprints (merge twice))
    × All (λ p. find (fingerprint p) twice ≡ some p) (merge twice)
    × ((t : Text) → find t (merge twice) ≡ find t twice)
merge_firsts_example = merge_firsts twice

abbrev started : Counters
started = record { sub_counter = 1; uid_counter = 1 }

new_sub_id_fresh_example :
    ((k : ℕ) → k ≤ 7 → (new_sub_id (after_ids 2 (rebase_sub_counter 7 started))).0 ≢ sub_id k)
    × ((i : ℕ)
        → i < 2
        → (new_sub_id (after_ids 2 (rebase_sub_counter 7 started))).0
          ≢ (new_sub_id (after_ids i (rebase_sub_counter 7 started))).0)
unfolding rebase_sub_counter
new_sub_id_fresh_example = new_sub_id_fresh 7 started 2 (omega arith) (omega arith)
