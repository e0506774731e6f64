-- ===== src/Ops/Transform.antt =====
-- `Transform` and `apply` (core/src/ops.rs): filters, thresholds, rename, sort.
pub mod Order
pub mod InOrder
pub mod Pipeline
use sub_hub.Common.{
  ℕ, suc, ◌+◌, ◌-◌, ◌^◌, ◌==◌, Bool, true, false, not, ◌&&◌, ◌||◌, Option, none, some, List, [],
  ◌∷◌, ◌++◌, map, Text, lit, leb, every, any, retain, text_eq, contains, unwrap_or, compare,
  Ordering, if◌then◌else◌,
}
use sub_hub.Common.Float.{F64, float_zero, float_ge, is_finite, partial_cmp}
use sub_hub.Common.Sort.{then_with, reverse_order, sort_by}
use sub_hub.Model.Proxy.{Proxy, as_str, is_dead}
use sub_hub.Model.Region.{Unicode, effective_region}
use sub_hub.Score.{Arithmetic, score_proxy}
use sub_hub.Ops.Regex.{Result, ok, err, ◌>>=◌, RegexEngine, map_err, collect}

pub record FilterRule : Type 0 where
  pub field : Text
  pub mode : Text
  pub match_ : Text
  pub value : Text

pub record SortBy : Type 0 where
  pub key : Text
  pub desc : Bool

pub record RenameRule : Type 0 where
  pub pattern : Text
  pub replacement : Text

pub record Transform : Type 0 where
  pub filters : List FilterRule
  pub sort : Option SortBy
  pub rename : Option RenameRule
  pub min_bandwidth_bps : Option ℕ
  pub max_latency_ms : Option ℕ

-- `match field` over texts: the first key that is the field.
unfoldable pub field_val : Unicode → Proxy → Text → Text
field_val u p field =
    if text_eq field (lit "name")
    then p.name
    else if text_eq field (lit "type")
    then as_str p.type_
    else if text_eq field (lit "region")
    then effective_region u p
    else if text_eq field (lit "server")
    then p.server
    else p.name

-- The hay of a `contains` filter: lowered only if a character is upper case.
unfoldable pub lowered : Unicode → Text → Text
lowered u val = if any u.is_uppercase val then u.str_lowercase val else val

unfoldable pub min_bandwidth : Arithmetic → ℕ → Option F64 → Bool
min_bandwidth a min none = true
min_bandwidth a min (some b) = if is_finite b then float_ge b (a.of_u64 min) else true

unfoldable pub max_latency : ℕ → Option ℕ → Bool
max_latency max none = true
max_latency max (some l) = leb l max

-- `replace("\\$", "$$")`.
unfoldable pub unescape_dollar : Text → Text
unescape_dollar [] = []
unescape_dollar (c ∷ []) = c ∷ []
unescape_dollar (c ∷ d ∷ s) =
    let kept = c ∷ unescape_dollar (d ∷ s) in
    let mapped = 36 ∷ 36 ∷ unescape_dollar s in if c == 92 && d == 36 then mapped else kept

abbrev pub renamed : (Text → Text → Text) → Text → Proxy → Proxy
renamed replace repl p = record p { name = replace p.name repl }

module _ (r : RegexEngine) where
  -- `keep`, with the compiled regex and the lowered value.
  unfoldable pub matched : Unicode → Proxy → FilterRule → Option r.Regex → Text → Bool
  unfolding field_val lowered
  matched u p rule re needle =
      let val = field_val u p rule.field in
      if text_eq rule.match_ (lit "regex")
      then (elim re [ none ↦ false | some x ↦ r.is_match x val ])
      else if text_eq rule.match_ (lit "exact")
      then text_eq val rule.value
      else contains (lowered u val) needle

  unfoldable pub keep : Unicode → Proxy → FilterRule → Option r.Regex → Text → Bool
  keep u p rule re needle =
      if text_eq rule.mode (lit "exclude")
      then not (matched u p rule re needle)
      else matched u p rule re needle

  abbrev pub Compiled : Type 0
  Compiled = FilterRule × Option r.Regex × Text

  unfoldable pub compile_rule : Unicode → FilterRule → Result Compiled
  compile_rule u rule =
      let plain : Result Compiled = ok (rule, none, u.str_lowercase rule.value) in
      let compiled : Result Compiled =
        map_err (λ e. lit "正则过滤器「" ++ rule.value ++ lit "」无效: " ++ e) (r.compile rule.value)
        >>= (λ re. ok (rule, some re, u.str_lowercase rule.value)) in
      if text_eq rule.match_ (lit "regex") then compiled else plain

  -- The filters joined by AND.
  unfoldable pub passes : Unicode → List Compiled → Proxy → Bool
  passes u rules p = every (λ c. keep u p c.0 c.1 c.2) rules

  unfoldable pub rename_with : Option RenameRule → List Proxy → Result (List Proxy)
  rename_with none out = ok out
  rename_with (some rule) out = do
    re ← map_err (λ e. lit "重命名正则「" ++ rule.pattern ++ lit "」无效: " ++ e) (r.compile rule.pattern)
    ok (map (renamed (r.replace re) (unescape_dollar rule.replacement)) out)

-- `avail_rank`.
unfoldable pub avail_rank : Proxy → ℕ
avail_rank p = if is_dead p.available then 1 else 0

abbrev pub u64_max : ℕ
u64_max = 2 ^ 64 - 1

-- `if desc { b.cmp(a) } else { a.cmp(b) }`.
abbrev pub directed : Bool → Ordering → Ordering
directed desc o = if desc then reverse_order o else o

abbrev pub latency_order : (Proxy → Option ℕ) → Bool → Proxy → Proxy → Ordering
latency_order column desc p q =
    directed desc (compare (unwrap_or (column p) u64_max) (unwrap_or (column q) u64_max))

-- `partial_cmp(..).unwrap_or(Equal)`.
abbrev pub float_order : F64 → F64 → Ordering
float_order x y = unwrap_or (partial_cmp x y) Ordering.eq

-- `str::cmp`: by UTF-8 bytes, which is by scalar values.
unfoldable pub text_cmp : Text → Text → Ordering
text_cmp [] [] = Ordering.eq
text_cmp [] (_ ∷ _) = Ordering.lt
text_cmp (_ ∷ _) [] = Ordering.gt
text_cmp (c ∷ s) (d ∷ t) = then_with (compare c d) (text_cmp s t)

-- The column that a sort key orders by, `score` excepted.
unfoldable pub column_order : Text → Bool → Proxy → Proxy → Ordering
column_order key desc p q =
    if text_eq key (lit "latency")
    then latency_order (λ n. n.latency_ms) desc p q
    else if text_eq key (lit "tcplat")
    then latency_order (λ n. n.tcp_latency_ms) desc p q
    else if text_eq key (lit "httplat")
    then latency_order (λ n. n.http_latency_ms) desc p q
    else if text_eq key (lit "speed")
    then directed desc (
        float_order (unwrap_or p.download_speed_bps float_zero)
          (unwrap_or q.download_speed_bps float_zero))
    else if text_eq key (lit "type")
    then directed desc (text_cmp (as_str p.type_) (as_str q.type_))
    else directed desc (text_cmp p.name q.name)

-- The comparison of `sort_by`: the rank, then the column.
abbrev pub by_rank : (Proxy → Proxy → Ordering) → Proxy → Proxy → Ordering
by_rank column p q = then_with (compare (avail_rank p) (avail_rank q)) (column p q)

-- The `score` key sorts triples of rank, score and node.
abbrev pub keyed_order : Bool → ℕ × F64 × Proxy → ℕ × F64 × Proxy → Ordering
keyed_order desc x y = then_with (compare x.0 y.0) (directed desc (float_order x.1 y.1))

unfoldable pub sort_with : Arithmetic → Option SortBy → List Proxy → List Proxy
sort_with a none out = out
sort_with a (some s) out =
    if text_eq s.key (lit "score")
    then map (λ x. x.2)
        (sort_by (keyed_order s.desc) (map (λ p. (avail_rank p, score_proxy a p, p)) out))
    else sort_by (by_rank (column_order s.key s.desc)) out

abbrev pub when : {A B : Type 0} → Option A → (A → List B → List B) → List B → List B
when none f out = out
when (some x) f out = f x out

-- The filters and thresholds.
unfoldable pub select :
    (r : RegexEngine)
    → Unicode
    → Arithmetic
    → Transform
    → List (Compiled r)
    → List Proxy
    → List Proxy
select r u a t rules proxies =
    let filtered = retain (passes r u rules) proxies in
    let fast =
      when t.min_bandwidth_bps (λ min. retain (λ p. min_bandwidth a min p.download_speed_bps))
        filtered in
    when t.max_latency_ms (λ max. retain (λ p. max_latency max p.latency_ms)) fast

unfoldable pub apply :
    RegexEngine → Unicode → Arithmetic → List Proxy → Transform → Result (List Proxy)
apply r u a proxies t = do
  rules ← collect (compile_rule r u) t.filters
  out ← rename_with r t.rename (select r u a t rules proxies)
  ok (sort_with a t.sort out)
