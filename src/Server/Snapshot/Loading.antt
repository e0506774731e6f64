-- ===== src/Server/Snapshot/Loading.antt =====
-- `Db::load_all` and `Db::save_all` (server/src/db.rs), and what the start of the server does with the
-- rows that it loads (server/src/lib.rs). The derived serialisers are parameters.
use sub_hub.Common.{
  ℕ, Option, none, some, List, [], ◌∷◌, Text, lit, non_empty, unwrap_or, ltb, starts_with, drop,
  if◌then◌else◌, ◌>>=◌,
}
use sub_hub.Model.Proxy.{Proxy}
use sub_hub.Model.Json.{Json, object, as_array, as_object, text_at, get, insert, filter_items}
use sub_hub.Model.Subscription.{
  Subscription, Counters, new_subscription, ensure_uid, rebase_sub_counter,
}
use sub_hub.Parse.Dates.{parse_unsigned}
use sub_hub.Parse.Fields.{max_u64}
use sub_hub.Server.Snapshot.{Table, Writer, save_rows}

-- `from_str`, `from_value`, `to_string` and `to_value` at the types that the functions use.
pub record Serde : Type 0 where
  pub decode : Text → Option Subscription
  pub encode : Subscription → Option Text
  pub value : Text → Option Json
  pub subscription_of : Json → Option Subscription
  pub node_of : Json → Option Proxy
  pub nodes_value : List Proxy → Json

-- Rows whose subscription has no text are skipped.
unfoldable pub encode_all : Serde → List Subscription → List (Text × Text)
encode_all k [] = []
encode_all k (s ∷ ss) = elim (k.encode s) [
  | none ↦ encode_all k ss
  | some text ↦ (s.id, text) ∷ encode_all k ss
]

unfoldable pub save_all : Serde → Writer → List Subscription → Table → Table
unfolding encode_all save_rows
save_all k w store table = save_rows w (encode_all k store) table

-- The closure `read`.
abbrev pub read_field : Text → Json → Option Text
unfolding text_at
read_field key v = non_empty (text_at key v)

-- `val` with the nodes that were kept.
abbrev pub with_nodes : Serde → List Proxy → Json → Json
unfolding insert
with_nodes k kept (object m) = object (insert (lit "proxies") (k.nodes_value kept) m)
with_nodes k kept v = v

-- The last resort: a new subscription with the nodes and the fields that can be read.
unfoldable pub rebuilt : ℕ → Json → List Proxy → Counters → Subscription × Counters
unfolding new_subscription text_at
rebuilt nanos v kept c =
    let made =
      new_subscription nanos (unwrap_or (read_field (lit "name") v) (lit "恢复的订阅"))
        (unwrap_or (read_field (lit "source") v) (lit "pasted")) kept c in
    elim (read_field (lit "id") v) [ none ↦ made | some id ↦ (record made.0 { id = id }, made.1) ]

-- The branch for a value whose `proxies` are an array.
unfoldable pub repaired : Serde → ℕ → Json → List Proxy → Counters → Option Subscription × Counters
unfolding rebuilt
repaired k nanos v kept c = elim (k.subscription_of (with_nodes k kept v)) [
  | some sub ↦ (some sub, c)
  | none ↦ elim kept [
    | [] ↦ (none, c)
    | p ∷ ps ↦ let made = rebuilt nanos v (p ∷ ps) c in (some made.0, made.1)
  ]
]

-- The body of the loop.
unfoldable pub load_row : Serde → (ℕ → ℕ) → Text → Counters → Option Subscription × Counters
unfolding repaired get filter_items
load_row k clock text c = elim (k.decode text) [
  | some sub ↦ (some sub, c)
  | none ↦ elim (k.value text) [
    | none ↦ (none, c)
    | some v ↦ elim (as_object v >>= λ m. get (lit "proxies") (object m) >>= as_array) [
      | none ↦ (none, c)
      | some nodes ↦ repaired k (clock c.uid_counter) v (filter_items k.node_of nodes) c
    ]
  ]
]

abbrev pub and_then : Option Subscription → List Subscription → List Subscription
and_then none subs = subs
and_then (some sub) subs = sub ∷ subs

unfoldable pub load_all : Serde → (ℕ → ℕ) → Table → Counters → List Subscription × Counters
unfolding load_row
load_all k clock [] c = ([], c)
load_all k clock (r ∷ rs) c =
    let loaded = load_row k clock r.data_ c in
    let rest = load_all k clock rs loaded.1 in (and_then loaded.0 rest.0, rest.1)

-- The uids of entries that are older than the field.
unfoldable pub backfill : (ℕ → ℕ) → List Subscription → Counters → List Subscription × Counters
unfolding ensure_uid
backfill clock [] c = ([], c)
backfill clock (s ∷ ss) c =
    let first = ensure_uid (clock c.uid_counter) s c in
    let rest = backfill clock ss first.1 in (first.0 ∷ rest.0, rest.1)

-- The number of an id `sub_N`.
unfoldable pub sub_number : Text → Option ℕ
unfolding starts_with parse_unsigned
sub_number id = if starts_with id (lit "sub_") then parse_unsigned max_u64 (drop 4 id) else none

-- `max().unwrap_or(0)`.
unfoldable pub max_number : List Subscription → ℕ
unfolding sub_number
max_number [] = 0
max_number (s ∷ ss) =
    let n = unwrap_or (sub_number s.id) 0 in
    let rest = max_number ss in if ltb rest n then n else rest

-- The store and the counters with which the server starts; the save after a backfill is left out.
unfoldable pub start_store : Serde → (ℕ → ℕ) → Table → Counters → List Subscription × Counters
unfolding load_all backfill max_number rebase_sub_counter
start_store k clock table c =
    let loaded = load_all k clock table c in
    let filled = backfill clock loaded.0 loaded.1 in
    elim filled.0 [
      | [] ↦ filled
      | s ∷ ss ↦ (filled.0, rebase_sub_counter (max_number (s ∷ ss)) filled.1)
    ]
