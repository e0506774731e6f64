-- ===== src/Examples/Backup.antt =====
-- Theorems about backups and refreshes at concrete inputs.
use sub_hub.Common.{
  ℕ, ◌+◌, ◌≡◌, refl, false, none, some, List, [], ◌∷◌, map, lit, length, inl, inr, All, trim,
  trim_matches, is_whitespace, starts_with, text_eq,
}
use sub_hub.Model.Subscription.{Subscription, Counters}
use sub_hub.Server.Backup.{Import, import_subscriptions, export_subscriptions, is_remote}
use sub_hub.Server.Backup.Accounting.{import_subscriptions-accounts}
use sub_hub.Server.Backup.Targets.{key, IsRestorable}
use sub_hub.Server.Backup.Restore.{import_subscriptions-export_subscriptions}
use sub_hub.Server.Requests.{received, Response}
use sub_hub.Server.Subscriptions.{Client, find_by_id}
use sub_hub.Server.Subscriptions.Phases.{Refresh, do_refresh_one}
use sub_hub.Server.Subscriptions.Refreshed.{Refreshed, do_refresh_one-Refreshed}
use sub_hub.Examples.Samples.{stored}
use sub_hub.Examples.Requests.{codecs}

abbrev remote : Subscription
remote = record (stored (lit "sub_1") (lit "https://h/s") []) { uid = lit "u_1" }

abbrev pasted : Subscription
pasted = record (stored (lit "sub_2") (lit "pasted") []) { uid = lit "u_2" }

abbrev store : List Subscription
store = remote ∷ pasted ∷ []

abbrev counters : Counters
counters = record { sub_counter = 3; uid_counter = 0 }

abbrev clock : ℕ → ℕ
clock n = 1000 + n

-- The backup goes to a store that has one of its two subscriptions.
import_subscriptions-accounts_example :
    (m : Import) × (import_subscriptions clock 5 (export_subscriptions store) (remote ∷ []) counters
      ≡ some m)
    × (m.added + m.replaced ≡ length (export_subscriptions store))
    × (length m.guard ≡ length (remote ∷ []) + m.added)
import_subscriptions-accounts_example =
    import_subscriptions-accounts clock 5 (export_subscriptions store) (remote ∷ []) counters

store-IsRestorable : All IsRestorable (map key store)
unfolding trim trim_matches is_whitespace is_remote starts_with
store-IsRestorable = ((refl, refl, inl refl), ((refl, refl, inr refl), tt))

import_subscriptions-export_subscriptions_example :
    (m : Import) × (import_subscriptions clock 5 (export_subscriptions store) store counters
      ≡ some m)
    × (m.added ≡ 0)
    × (m.replaced ≡ length store)
    × (map key m.guard ≡ map key store)
import_subscriptions-export_subscriptions_example =
    import_subscriptions-export_subscriptions clock 5 store counters store-IsRestorable

abbrev response : Response
response = record {
  userinfo = none;
  content_length = none;
  body = lit "trojan://pw@h.example:443#a";
  read_error = none;
}

found : find_by_id (lit "sub_1") store ≡ some remote
unfolding find_by_id text_eq
found = refl

found_later : find_by_id (lit "sub_1") (pasted ∷ store) ≡ some remote
unfolding find_by_id text_eq
found_later = refl

do_refresh_one-Refreshed_example :
    (r : Refresh) × (do_refresh_one codecs
        (λ p. Client.ready (λ url. received response))
        false
        7
        (lit "sub_1")
        store
        (pasted ∷ store)
      ≡ some r)
    × Refreshed r.1 (pasted ∷ store) r.0
do_refresh_one-Refreshed_example =
    do_refresh_one-Refreshed codecs (λ p. Client.ready (λ url. received response)) false 7
      (lit "sub_1") store (pasted ∷ store) remote remote found found_later
