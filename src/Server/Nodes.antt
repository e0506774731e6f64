-- ===== src/Server/Nodes.antt =====
-- `list_proxies` and the results of `geo_detect` (server/src/handlers/nodes.rs). The JSON of a row
-- and the saving after the detection are left out. A `usize` has 64 bits and wraps; a `Vec` has too
-- few elements for `start + page_size` to.
pub mod Pages
use Prim.Native.Nat.{min}
use sub_hub.Common.{
  ℕ, ◌+◌, ◌-◌, ◌*◌, Bool, true, false, not, ◌&&◌, ◌||◌, Option, none, some, List, [], ◌∷◌, ◌++◌,
  map, Text, lit, length, take, drop, ltb, unwrap_or, text_eq, contains, to_ascii_lowercase,
  compare, Ordering, if◌then◌else◌,
}
use sub_hub.Common.Float.{F64}
use sub_hub.Common.Lookup.{lookup_last}
use sub_hub.Common.Sort.{then_with, reverse_order, sort_by}
use sub_hub.Model.Proxy.{Proxy, as_str}
use sub_hub.Model.Fingerprint.{fingerprint}
use sub_hub.Model.Health.{u64}
use sub_hub.Model.Region.{Unicode, effective_region}
use sub_hub.Model.Subscription.{Subscription}
use sub_hub.Ops.Transform.{avail_rank, directed, float_order, text_cmp}
use sub_hub.Score.{Arithmetic, score_proxy}
use sub_hub.Server.Maintenance.{parse_desc}

pub record ListQuery : Type 0 where
  pub type_ : Option Text
  pub region : Option Text
  pub q : Option Text
  pub page : Option ℕ
  pub page_size : Option ℕ
  pub sort : Option Text
  pub desc : Option Text

pub record NodeRow : Type 0 where
  pub sub_id : Text
  pub sub_name : Text
  pub p : Proxy
  pub region : Text
  pub score : F64

pub record ProxiesResp : Type 0 where
  pub total : ℕ
  pub page : ℕ
  pub page_size : ℕ
  pub items : List NodeRow

abbrev pub fits : Option Text → (Text → Bool) → Bool
fits none f = true
fits (some t) f = f t

abbrev pub f64_min : F64
f64_min = record { bits = 0xFFEFFFFFFFFFFFFF }

-- `untested_last`.
abbrev pub untested_last : Option ℕ → Option ℕ → Ordering
untested_last none none = Ordering.eq
untested_last none (some y) = Ordering.gt
untested_last (some x) none = Ordering.lt
untested_last (some x) (some y) = compare x y

-- The column of a sort key.
unfoldable pub row_order : Text → NodeRow → NodeRow → Ordering
row_order key a b =
    if text_eq key (lit "score")
    then float_order a.score b.score
    else if text_eq key (lit "speed")
    then float_order (unwrap_or a.p.download_speed_bps f64_min)
        (unwrap_or b.p.download_speed_bps f64_min)
    else if text_eq key (lit "latency")
    then untested_last a.p.latency_ms b.p.latency_ms
    else if text_eq key (lit "tcplat")
    then untested_last a.p.tcp_latency_ms b.p.tcp_latency_ms
    else if text_eq key (lit "httplat")
    then untested_last a.p.http_latency_ms b.p.http_latency_ms
    else text_cmp a.p.name b.p.name

-- The comparison of `sort_by`: dead nodes last, then the column.
abbrev pub list_order : Text → Bool → NodeRow → NodeRow → Ordering
list_order key desc a b =
    then_with (compare (avail_rank a.p) (avail_rank b.p)) (directed desc (row_order key a b))

abbrev pub clamp_size : ℕ → ℕ
clamp_size n = min (if ltb n 1 then 1 else n) 500

-- `&rows[start..end]`, if the page begins before the end.
unfoldable pub page_items : ℕ → ℕ → List NodeRow → List NodeRow
page_items page page_size rows =
    let start = u64 ((page - 1) * page_size) in
    let end = min (start + page_size) (length rows) in
    if ltb start (length rows) then take (end - start) (drop start rows) else []

module _ (u : Unicode) (a : Arithmetic) where
  unfoldable pub needle_of : Option Text → Option Text
  needle_of none = none
  needle_of (some s) = some (u.str_lowercase (take 256 s))

  -- The tests that `continue` when they fail.
  unfoldable pub is_listed : ListQuery → Proxy → Bool
  unfolding needle_of
  is_listed q p =
      let region = effective_region u p in
      fits q.type_ (λ t. text_eq (as_str p.type_) t)
      && fits q.region (λ r. text_eq (to_ascii_lowercase region) (to_ascii_lowercase r))
      && fits (needle_of q.q) (λ s.
        contains (u.str_lowercase p.name) s
        || contains (u.str_lowercase p.server) s
        || contains (u.str_lowercase region) s
        || contains (as_str p.type_) s)

  abbrev pub row_of : Subscription → Proxy → NodeRow
  row_of sub p = record {
    sub_id = sub.id;
    sub_name = sub.name;
    p = p;
    region = effective_region u p;
    score = score_proxy a p;
  }

  unfoldable pub sub_rows : ListQuery → Subscription → List Proxy → List NodeRow
  unfolding is_listed
  sub_rows q sub [] = []
  sub_rows q sub (p ∷ ps) =
      let rest = sub_rows q sub ps in if is_listed q p then row_of sub p ∷ rest else rest

  unfoldable pub all_rows : ListQuery → List Subscription → List NodeRow
  unfolding sub_rows
  all_rows q [] = []
  all_rows q (sub ∷ subs) = sub_rows q sub sub.proxies ++ all_rows q subs

  unfoldable pub sorted_rows : ListQuery → List Subscription → List NodeRow
  unfolding all_rows row_order
  sorted_rows q store =
      sort_by (list_order (unwrap_or q.sort (lit "name")) (parse_desc q.desc)) (all_rows q store)

  unfoldable pub list_proxies : ListQuery → List Subscription → ProxiesResp
  unfolding sorted_rows page_items
  list_proxies q store =
      let rows = sorted_rows q store in
      let asked = unwrap_or q.page 1 in
      let page = if ltb asked 1 then 1 else asked in
      let page_size = clamp_size (unwrap_or q.page_size 50) in
      record {
        total = length rows;
        page = page;
        page_size = page_size;
        items = page_items page page_size rows;
      }

-- The loop of `geo_detect` over the nodes of the store, for the countries by fingerprint.
unfoldable pub set_country : ℕ → List (Text × Option Text) → Proxy → Proxy
set_country now cc_by_fp p = elim (lookup_last (fingerprint p) cc_by_fp) [
  | none ↦ p
  | some cc ↦ record p { outbound_country = cc; last_tested_at = some now }
]

unfoldable pub set_countries : ℕ → List (Text × Option Text) → List Subscription → List Subscription
unfolding set_country
set_countries now cc_by_fp [] = []
set_countries now cc_by_fp (s ∷ ss) =
    record s { proxies = map (set_country now cc_by_fp) s.proxies } ∷ set_countries now cc_by_fp ss

-- `cc_by_fp`.
unfoldable pub countries_by_fingerprint :
    List Proxy → List (Option Text) → List (Text × Option Text)
countries_by_fingerprint [] ccs = []
countries_by_fingerprint (p ∷ ps) [] = []
countries_by_fingerprint (p ∷ ps) (cc ∷ ccs) = (fingerprint p, cc) ∷ countries_by_fingerprint ps ccs
