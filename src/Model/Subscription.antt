-- ===== src/Model/Subscription.antt =====
-- `Subscription` and the counters of its ids (core/src/model.rs). The atomic counters are state
-- that the operations take and return.
pub mod Ids
use sub_hub.Common.{
  ℕ, suc, ◌+◌, ◌-◌, ◌/◌, ◌%◌, ◌^◌, Bool, true, false, Option, none, some, List, [], ◌∷◌, ◌++◌, Text,
  lit, text_eq, trim, is_empty, ltb, if◌then◌else◌,
}
use Prim.Native.Nat.{min, zero}
use sub_hub.Common.Decimal.{decimal}
use sub_hub.Model.Proxy.{Proxy}
use sub_hub.Model.Health.{SubscriptionHealth, u64}

pub record Subscription : Type 0 where
  pub id : Text
  pub uid : Text
  pub name : Text
  pub source : Text
  pub proxies : List Proxy
  pub health : SubscriptionHealth
  pub fetch_proxy : Option Text

-- `SUB_COUNTER` and `SUB_UID_COUNTER`.
pub record Counters : Type 0 where
  pub sub_counter : ℕ
  pub uid_counter : ℕ

-- `{:x}`, by at most 32 digits.
hex_digit : ℕ → ℕ
hex_digit d = if ltb d 10 then 48 + d else 87 + d

hex_onto : ℕ → ℕ → Text → Text
unfolding hex_digit
hex_onto zero n rest = rest
hex_onto (suc f) n rest =
    let more = hex_onto f (n / 16) (hex_digit (n % 16) ∷ rest) in
    if ltb n 16 then hex_digit n ∷ rest else more

abbrev pub sub_id : ℕ → Text
sub_id n = lit "sub_" ++ decimal n

-- `fetch_add` returns the old value and wraps.
unfoldable pub new_sub_id : Counters → Text × Counters
new_sub_id c = (sub_id c.sub_counter, record c { sub_counter = u64 (c.sub_counter + 1) })

-- The clock's nanoseconds are an argument.
unfoldable pub new_sub_uid : ℕ → Counters → Text × Counters
unfolding hex_onto
new_sub_uid nanos c = (
  lit "u_" ++ hex_onto 32 nanos [] ++ lit "_" ++ hex_onto 32 c.uid_counter [],
  record c { uid_counter = u64 (c.uid_counter + 1) },
)

abbrev pub saturating_add : ℕ → ℕ → ℕ
saturating_add a b = min (a + b) (2 ^ 64 - 1)

unfoldable pub rebase_sub_counter : ℕ → Counters → Counters
rebase_sub_counter max_existing c =
    let target = saturating_add max_existing 1 in
    if ltb c.sub_counter target then record c { sub_counter = target } else c

abbrev pub fresh_health : Text → SubscriptionHealth
fresh_health source_type = record {
  enabled = true;
  source_type = source_type;
  last_checked_at = none;
  last_updated_at = none;
  last_healthy_at = none;
  last_error = none;
  node_count = 0;
  healthy_node_count = 0;
  unknown_node_count = 0;
  avg_latency_ms = none;
  best_latency_ms = none;
  upload = none;
  download = none;
  total = none;
  expire = none;
}

-- `Subscription::new`.
unfoldable pub new_subscription : ℕ → Text → Text → List Proxy → Counters → Subscription × Counters
unfolding new_sub_id new_sub_uid
new_subscription nanos name source proxies c =
    let source_type = if text_eq source (lit "pasted") then lit "local" else lit "remote" in
    let (id, c₁) = new_sub_id c in
    let (uid, c₂) = new_sub_uid nanos c₁ in
    (
      record {
        id = id;
        uid = uid;
        name = name;
        source = source;
        proxies = proxies;
        health = fresh_health source_type;
        fetch_proxy = none;
      },
      c₂,
    )

-- `ensure_uid`.
unfoldable pub ensure_uid : ℕ → Subscription → Counters → Subscription × Counters
unfolding new_sub_uid
ensure_uid nanos s c =
    let (uid, c') = new_sub_uid nanos c in
    if is_empty (trim s.uid) then (record s { uid = uid }, c') else (s, c)
