-- ===== src/Server/Snapshot/Reload.antt =====
-- What is loaded of a table, after a save and where a row is broken.
use mathlib.Core.Option.{some_inj}
use mathlib.Core.Path.{ap, ◌∙◌}
use sub_hub.Common.{
  ℕ, zero, suc, ◌≡◌, refl, sym, true, false, Option, none, some, List, [], ◌∷◌, map, Text, lit,
  get_elem?, All, text_eq, text_eq_iff, contains_text, Bool-cases, inl, inr, arith,
}
use sub_hub.Model.Merge.Dedup.{Distinct}
use sub_hub.Model.Proxy.{Proxy}
use sub_hub.Model.Subscription.{
  Subscription, Counters, sub_id, new_sub_id, new_subscription, ensure_uid,
}
use sub_hub.Model.Json.{Json, Items, Members, object, array, get, filter_items}
use sub_hub.Server.Snapshot.{Table, Row, Writer, save_rows, ids}
use sub_hub.Server.Snapshot.Contents.{read, given, Digested, NoCollision, read-save_rows}
use sub_hub.Server.Snapshot.Loading.{
  Serde, start_store, backfill, encode_all, save_all, and_then, read_field, with_nodes, load_row,
  load_all, repaired, rebuilt,
}

-- A subscription stands among those that were loaded.
abbrev pub Among : Subscription → List Subscription → Type 0
Among s loaded = (i : ℕ) × (get_elem? loaded i ≡ some s)

-- The subscription has a text, which is read back as it.
abbrev pub RoundTrips : Serde → Subscription → Type 0
RoundTrips k s = (text : Text) × (k.encode s ≡ some text) × (k.decode text ≡ some s)

Among-and_then :
    (o : Option Subscription) (s : Subscription) (subs : List Subscription)
    → Among s subs
    → Among s (and_then o subs)
Among-and_then none s subs h = h
Among-and_then (some t) s subs (i, e) = (suc i, e)

module _ (k : Serde) (clock : ℕ → ℕ) where
  Among-load_all :
      (s : Subscription) (id text : Text) (t : Table) (c : Counters)
      → k.decode text ≡ some s
      → read id t ≡ some text
      → Among s (load_all k clock t c).0
  unfolding load_all read
  Among-load_all s id text [] c d e = absurd (ground (arith, e))
  Among-load_all s id text (r ∷ rs) c d e = elim (Bool-cases (text_eq r.id id)) [
    | inl here ↦
        let same : r.data_ ≡ text = ground (arith, here, e) in
        let first : load_row k clock r.data_ c ≡ (some s, c) = rw (same, load_row, d) refl in
        rw first (0, refl)
    | inr other ↦
        Among-and_then (load_row k clock r.data_ c).0 s
          (load_all k clock rs (load_row k clock r.data_ c).1).0
          (Among-load_all s id text rs (load_row k clock r.data_ c).1 d (ground (arith, other, e)))
  ]

abbrev pub id_of : Subscription → Text
id_of s = s.id

module _ (k : Serde) where
  ids-encode_all :
      (store : List Subscription)
      → All (RoundTrips k) store
      → ids (encode_all k store) ≡ map id_of store
  unfolding encode_all
  ids-encode_all [] h = refl
  ids-encode_all (s ∷ ss) ((text, e, d), h) =
      rw (encode_all, e) (ap (λ l. s.id ∷ l) (ids-encode_all ss h))

  contains-at :
      (store : List Subscription) (j : ℕ) (s : Subscription)
      → get_elem? store j ≡ some s
      → contains_text (map id_of store) s.id ≡ true
  unfolding contains_text
  contains-at [] j s e = ground (arith, e)
  contains-at (t ∷ ts) zero s e = ground (arith, ap id_of (some_inj.0 e), text_eq_iff s.id t.id)
  contains-at (t ∷ ts) (suc j) s e = ground (arith, contains-at ts j s e)

  given-encode_all :
      (store : List Subscription) (j : ℕ) (s : Subscription)
      → Distinct (map id_of store)
      → All (RoundTrips k) store
      → get_elem? store j ≡ some s
      → (text : Text) × (given s.id (encode_all k store) ≡ some text) × (k.decode text ≡ some s)
  unfolding given encode_all
  given-encode_all [] j s n h e = absurd (ground (arith, e))
  given-encode_all (t ∷ ts) zero s n ((text, enc, dec), h) e =
      let t-s : t ≡ s = some_inj.0 e in
      (
        text,
        rw (encode_all, enc) (ground (arith, ap id_of t-s, text_eq_iff t.id s.id)),
        dec ∙ ap some t-s,
      )
  given-encode_all (t ∷ ts) (suc j) s n ((text, enc, dec), h) e =
      let (found, there, back) = given-encode_all ts j s n.1 h e in
      let other : text_eq t.id s.id ≡ false =
        ground (arith, n.0, contains-at ts j s e, text_eq_iff t.id s.id) in
      (found, rw (encode_all, enc, other) there, back)

-- Given a store of pairwise different ids whose subscriptions are written and read back as they are,
-- a table whose digests are those of its texts, and no digest that a changed text shares with the
-- stored one: every subscription of the store is loaded after it was saved, though unchanged rows
-- were not written.
pub load_all-save_all :
    (k : Serde) (clock : ℕ → ℕ) (w : Writer) (store : List Subscription) (t : Table) (c : Counters)
    (j : ℕ) (s : Subscription)
    → Distinct (map id_of store)
    → All (RoundTrips k) store
    → Digested w t
    → All (NoCollision w t) (encode_all k store)
    → get_elem? store j ≡ some s
    → Among s (load_all k clock (save_all k w store t) c).0
unfolding save_all
load_all-save_all k clock w store t c j s n h d free at =
    let (text, found, back) = given-encode_all k store j s n h at in
    let apart : Distinct (ids (encode_all k store)) = rw (ids-encode_all k store h) n in
    Among-load_all k clock s s.id text (save_rows w (encode_all k store) t) c back
      (read-save_rows w (encode_all k store) t s.id apart d free ∙ found)

id-rebuilt :
    (nanos : ℕ) (v : Json) (kept : List Proxy) (c : Counters)
    → read_field (lit "id") v ≡ none
    → (rebuilt nanos v kept c).0.id ≡ sub_id c.sub_counter
unfolding rebuilt new_subscription new_sub_id
id-rebuilt nanos v kept c e = rw (e, rebuilt) refl

-- A row that only the last resort can read, and that has no id, is given the next id of the counters.
load_all-reuses_id :
    (k : Serde) (clock : ℕ → ℕ) (r b : Row) (t : Table) (c : Counters) (s : Subscription)
    (m : Members) (nodes : Items) (p : Proxy) (ps : List Proxy)
    → k.decode r.data_ ≡ some s
    → s.id ≡ sub_id c.sub_counter
    → k.decode b.data_ ≡ none
    → k.value b.data_ ≡ some (object m)
    → get (lit "proxies") (object m) ≡ some (array nodes)
    → filter_items k.node_of nodes ≡ p ∷ ps
    → k.subscription_of (with_nodes k (p ∷ ps) (object m)) ≡ none
    → read_field (lit "id") (object m) ≡ none
    → (x : Subscription) × (y : Subscription) × (rest : List Subscription) × ((load_all k clock
          (r ∷ b ∷ t)
          c).0
        ≡ x ∷ y ∷ rest)
      × (x.id ≡ y.id)
unfolding load_all
load_all-reuses_id k clock r b t c s m nodes p ps dec same bad value arr kept unfit noid =
    let nanos = clock c.uid_counter in
    let made = rebuilt nanos (object m) (p ∷ ps) c in
    let first : load_row k clock r.data_ c ≡ (some s, c) = rw (load_row, dec) refl in
    let second : load_row k clock b.data_ c ≡ (some made.0, made.1) =
      rw (load_row, bad, value, arr, repaired, kept, unfit, kept) refl in
    (
      s,
      made.0,
      (load_all k clock t made.1).0,
      rw (first, second) refl,
      same ∙ sym (id-rebuilt nanos (object m) (p ∷ ps) c noid),
    )

id-ensure_uid : (nanos : ℕ) (s : Subscription) (c : Counters) → (ensure_uid nanos s c).0.id ≡ s.id
unfolding ensure_uid
id-ensure_uid nanos s c = ground arith

backfill-two :
    (clock : ℕ → ℕ) (x y : Subscription) (rest : List Subscription) (c : Counters)
    → x.id ≡ y.id
    → (x' : Subscription) × (y' : Subscription) × (rest' : List Subscription) × ((backfill clock
          (x ∷ y ∷ rest)
          c).0
        ≡ x' ∷ y' ∷ rest')
      × (x'.id ≡ y'.id)
unfolding backfill
backfill-two clock x y rest c e =
    let first = ensure_uid (clock c.uid_counter) x c in
    let second = ensure_uid (clock first.1.uid_counter) y first.1 in
    (
      first.0,
      second.0,
      (backfill clock rest second.1).0,
      refl,
      id-ensure_uid (clock c.uid_counter) x c
          ∙ e
          ∙ sym (id-ensure_uid (clock first.1.uid_counter) y first.1),
    )

start_store-filled :
    (k : Serde) (clock : ℕ → ℕ) (t : Table) (c : Counters)
    → (start_store k clock t c).0
      ≡ (backfill clock (load_all k clock t c).0 (load_all k clock t c).1).0
unfolding start_store
start_store-filled k clock t c = ground arith

-- Two rows: the first is read as it stands, and its id is the one that the counters of the new
-- process give next; the second has no id and only the last resort can read it. The server then
-- starts with two subscriptions of one id, since the counters are rebased only after the load.
pub start_store-reuses_id :
    (k : Serde) (clock : ℕ → ℕ) (r b : Row) (t : Table) (c : Counters) (s : Subscription)
    (m : Members) (nodes : Items) (p : Proxy) (ps : List Proxy)
    → k.decode r.data_ ≡ some s
    → s.id ≡ sub_id c.sub_counter
    → k.decode b.data_ ≡ none
    → k.value b.data_ ≡ some (object m)
    → get (lit "proxies") (object m) ≡ some (array nodes)
    → filter_items k.node_of nodes ≡ p ∷ ps
    → k.subscription_of (with_nodes k (p ∷ ps) (object m)) ≡ none
    → read_field (lit "id") (object m) ≡ none
    → (x : Subscription) × (y : Subscription) × (rest : List Subscription) × ((start_store k clock
          (r ∷ b ∷ t)
          c).0
        ≡ x ∷ y ∷ rest)
      × (x.id ≡ y.id)
start_store-reuses_id k clock r b t c s m nodes p ps dec same bad value arr kept unfit noid =
    let (x, y, rest, e, i) =
      load_all-reuses_id k clock r b t c s m nodes p ps dec same bad value arr kept unfit noid in
    let (x', y', rest', e', i') =
      backfill-two clock x y rest (load_all k clock (r ∷ b ∷ t) c).1 i in
    (
      x',
      y',
      rest',
      start_store-filled k clock (r ∷ b ∷ t) c
          ∙ ap (λ l. (backfill clock l (load_all k clock (r ∷ b ∷ t) c).1).0) e
          ∙ e',
      i',
    )
