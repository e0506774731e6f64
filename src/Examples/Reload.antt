-- ===== src/Examples/Reload.antt =====
-- Theorems about the snapshot of the store at concrete inputs.
use sub_hub.Common.{
  ◌≡◌, refl, true, none, some, List, [], ◌∷◌, map, lit, length, text_eq, contains_text, arith, All,
  if◌then◌else◌,
}
use sub_hub.Model.Json.{
  Members, object, array, null, cons, nil, member, end, get, find_member, text_at, filter_items,
}
use sub_hub.Model.Merge.Dedup.{Distinct}
use sub_hub.Model.Subscription.{Subscription, Counters, sub_id}
use sub_hub.Common.Decimal.{decimal}
use sub_hub.Server.Snapshot.{Row, Table, Writer, new_row}
use sub_hub.Server.Snapshot.Contents.{read, NoCollision}
use sub_hub.Server.Snapshot.Loading.{Serde, read_field, encode_all, save_all, load_all, start_store}
use sub_hub.Server.Snapshot.Reload.{
  Among, RoundTrips, id_of, load_all-save_all, start_store-reuses_id,
}
use sub_hub.Examples.Samples.{node, stored}

abbrev kept : Subscription
kept = stored (lit "sub_1") (lit "http://a") (node (lit "c") ∷ [])

abbrev added : Subscription
added = stored (lit "sub_22") (lit "pasted") []

abbrev broken : Members
broken = member (lit "proxies") (array (cons null nil)) end

-- The text of a subscription is its id; one text is a value that is no subscription.
abbrev serde : Serde
serde = record {
  decode = λ t.
      if text_eq t (lit "sub_1")
      then some kept
      else if text_eq t (lit "sub_22")
      then some added
      else none;
  encode = λ s. some s.id;
  value = λ t. if text_eq t (lit "{") then some (object broken) else none;
  subscription_of = λ v. none;
  node_of = λ v. some (node (lit "c"));
  nodes_value = λ ps. null;
}

-- A digest by length only, which tells the texts apart.
abbrev by_length : Writer
by_length = record {
  content_fingerprint = λ t. record { len = length t; hash = 0 };
  hashed = true;
  now = 7;
}

abbrev counters : Counters
counters = record { sub_counter = 1; uid_counter = 0 }

abbrev good_row : Row
good_row = new_row by_length (lit "sub_1") (lit "sub_1")

abbrev bad_row : Row
bad_row = new_row by_length (lit "x") (lit "{")

abbrev table : Table
table = good_row ∷ bad_row ∷ []

abbrev store : List Subscription
store = kept ∷ added ∷ []

store-Distinct : Distinct (map id_of store)
unfolding contains_text text_eq
store-Distinct = (refl, (refl, tt))

store-RoundTrips : All (RoundTrips serde) store
unfolding text_eq
store-RoundTrips = ((lit "sub_1", refl, refl), ((lit "sub_22", refl, refl), tt))

store-NoCollision : All (NoCollision by_length table) (encode_all serde store)
unfolding read text_eq encode_all
store-NoCollision = ((λ old e h. ground arith), ((λ old e h. ground arith), tt))

load_all-save_all_example :
    Among added (load_all serde (λ n. n) (save_all serde by_length store table) counters).0
load_all-save_all_example =
    load_all-save_all serde (λ n. n) by_length store table counters 1 added store-Distinct
      store-RoundTrips (refl, (refl, tt)) store-NoCollision refl

decode_good : serde.decode good_row.data_ ≡ some kept
unfolding text_eq
decode_good = refl

decode_bad : serde.decode bad_row.data_ ≡ none
unfolding text_eq
decode_bad = refl

value_bad : serde.value bad_row.data_ ≡ some (object broken)
unfolding text_eq
value_bad = refl

next_id : kept.id ≡ sub_id counters.sub_counter
unfolding decimal
next_id = refl

nodes_bad : get (lit "proxies") (object broken) ≡ some (array (cons null nil))
unfolding get find_member text_eq
nodes_bad = refl

kept_bad : filter_items serde.node_of (cons null nil) ≡ node (lit "c") ∷ []
unfolding filter_items
kept_bad = refl

id_bad : read_field (lit "id") (object broken) ≡ none
unfolding text_at get find_member text_eq
id_bad = refl

start_store-reuses_id_example :
    (x : Subscription) × (y : Subscription) × (rest : List Subscription) × ((start_store serde
        (λ n. n)
        table
        counters).0
      ≡ x ∷ y ∷ rest)
    × (x.id ≡ y.id)
start_store-reuses_id_example =
    start_store-reuses_id serde (λ n. n) good_row bad_row [] counters kept broken (cons null nil)
      (node (lit "c")) [] decode_good next_id decode_bad value_bad nodes_bad kept_bad refl id_bad
