-- ===== src/Server/Persist/Verdict.antt =====
-- What `persist_results` makes of one node, round after round (server/src/lib.rs).
use sub_hub.Common.{
  ℕ, suc, ◌+◌, ◌-◌, ◌^◌, ◌<◌, ◌≤◌, ◌≡◌, refl, ap, ◌∙◌, Bool, true, false, Option, none, some, List,
  [], ◌∷◌, length, All, is_some, if◌then◌else◌, arith,
}
use sub_hub.Model.Proxy.{Proxy, is_dead}
use sub_hub.Server.Persist.{PersistRow, Settings, is_loopback_server, update_node}

-- A node found dead carries no latency and no bandwidth.
abbrev NoStaleData : Proxy → Type 0
NoStaleData p =
    is_dead p.available ≡ true
    → (p.latency_ms ≡ none) × (p.download_speed_bps ≡ none) × (p.bandwidth_measured ≡ false)

-- What a round says of a node.
pub data Outcome : Type 0 where
  reached : Outcome
  failed : Outcome
  undecided : Outcome

-- Without an engine the TCP connection decides; with one, the page that the engine reached or did not.
-- A round that did not run the configured engine can only fail the node.
unfoldable pub outcome_of : (configured ran_engine page connection : Bool) → Outcome
outcome_of false ran page true = reached
outcome_of false ran page false = failed
outcome_of true true true connection = reached
outcome_of true true false connection = failed
outcome_of true false page true = undecided
outcome_of true false page false = failed

abbrev pub Round : Type 0
Round = Settings × PersistRow

unfoldable pub outcome : Round → Outcome
outcome r = outcome_of r.0.engine_configured r.1.ran_engine (is_some r.1.http) r.1.tcp_available

-- What an outcome makes of the availability and of the count of failures.
abbrev pub decided : Outcome → Option Bool → Option Bool
decided reached old = some true
decided failed old = some false
decided undecided old = old

abbrev pub counted : Outcome → ℕ → ℕ
counted reached n = 0
counted failed n = suc n
counted undecided n = n

-- The last decision of the rounds, the latest of which stands first, and the former one without any.
unfoldable pub last_verdict : Option Bool → List Round → Option Bool
last_verdict old [] = old
last_verdict old (r ∷ rs) = decided (outcome r) (last_verdict old rs)

-- How often the node has failed since it was last reached.
unfoldable pub failures : ℕ → List Round → ℕ
failures old [] = old
failures old (r ∷ rs) = counted (outcome r) (failures old rs)

-- The latency through the tunnel that the last run of the engine gave.
unfoldable pub last_http : Option ℕ → List Round → Option ℕ
last_http old [] = old
last_http old (r ∷ rs) = if r.1.ran_engine then r.1.http else last_http old rs

-- The node after the rounds.
unfoldable pub after : List Round → Proxy → Proxy
after [] p = p
after (r ∷ rs) p = update_node r.0 r.1 (after rs p)

server-update_node :
    (s : Settings) (w : PersistRow) (p : Proxy) → (update_node s w p).server ≡ p.server
unfolding update_node
server-update_node s w p = ground arith

server-after : (rs : List Round) (p : Proxy) → (after rs p).server ≡ p.server
unfolding after
server-after [] p = refl
server-after (r ∷ rs) p = server-update_node r.0 r.1 (after rs p) ∙ server-after rs p

failures-le : (old : ℕ) (rs : List Round) → failures old rs ≤ old + length rs
unfolding failures
failures-le old [] = omega arith
failures-le old (r ∷ rs) = ground (arith, failures-le old rs)

module _ (s : Settings) (w : PersistRow) (p : Proxy)
    (local : is_loopback_server s.parse_ip p.server ≡ false)
    (small : p.consecutive_failures < 2 ^ 32 - 1) where
  available-update_node : (update_node s w p).available ≡ decided (outcome (s, w)) p.available
  unfolding update_node outcome outcome_of
  available-update_node = ground arith

  failures-update_node :
      (update_node s w p).consecutive_failures ≡ counted (outcome (s, w)) p.consecutive_failures
  unfolding update_node outcome outcome_of
  failures-update_node = ground arith

  http-update_node :
      (update_node s w p).http_latency_ms ≡ (if w.ran_engine then w.http else p.http_latency_ms)
  unfolding update_node
  http-update_node = ground arith

-- After any rounds of tests, with and without the engine in any order, a node that is not local is
-- available or not as the last round that decided it says, and as before if none did; its count of
-- failures is that of the failed rounds since it was last reached, and its latency through the tunnel
-- is that of the last round that ran the engine. A round that did not run the configured engine
-- decides only against a node. The former count and the number of rounds are together below 2 ^ 32.
pub update_node-history :
    (p : Proxy) (rs : List Round)
    → All (λ r. is_loopback_server r.0.parse_ip p.server ≡ false) rs
    → p.consecutive_failures + length rs < 2 ^ 32
    → ((after rs p).available ≡ last_verdict p.available rs)
      × ((after rs p).consecutive_failures ≡ failures p.consecutive_failures rs)
      × ((after rs p).http_latency_ms ≡ last_http p.http_latency_ms rs)
unfolding after last_verdict failures last_http
update_node-history p [] h small = (refl, refl, refl)
update_node-history p (r ∷ rs) h small =
    let (a, f, l) = update_node-history p rs h.1 (omega (arith, small)) in
    let local : is_loopback_server r.0.parse_ip (after rs p).server ≡ false =
      rw (server-after rs p) h.0 in
    let few : (after rs p).consecutive_failures < 2 ^ 32 - 1 =
      omega (arith, f, failures-le p.consecutive_failures rs, small) in
    (
      available-update_node r.0 r.1 (after rs p) local few ∙ ap (decided (outcome r)) a,
      failures-update_node r.0 r.1 (after rs p) local few ∙ ap (counted (outcome r)) f,
      http-update_node r.0 r.1 (after rs p) local few
          ∙ ap (λ x. if r.1.ran_engine then r.1.http else x) l,
    )

-- Whatever the round measured, a node that carried no stale data when it was dead carries none
-- afterwards.
update_node-NoStaleData :
    (s : Settings) (w : PersistRow) (p : Proxy) → NoStaleData p → NoStaleData (update_node s w p)
unfolding update_node
update_node-NoStaleData s w p h = ground arith
