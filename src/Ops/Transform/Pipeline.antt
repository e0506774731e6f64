-- ===== src/Ops/Transform/Pipeline.antt =====
-- What `apply` keeps, and when it fails.
use mathlib.Core.Path.{fun_ext, subst, sym}
use mathlib.Core.List.{Perm}
use sub_hub.Common.{
  ℕ, ◌≡◌, refl, ap, ◌∙◌, Bool, true, false, not, ◌&&◌, ◌||◌, Option, none, some, List, [], ◌∷◌, lit,
  text_eq, text_eq_iff, Text, ltb, any, every, contains, retain, All, All-retain, arith, Bool-cases,
  inl, inr, if◌then◌else◌,
}
use sub_hub.Model.Proxy.{Proxy, as_str}
use sub_hub.Model.Region.{Unicode, effective_region}
use sub_hub.Score.{Arithmetic}
use sub_hub.Ops.Regex.{Result, ok, err, ◌>>=◌, RegexEngine, collect, map_err}
use sub_hub.Ops.Transform.{
  FilterRule, SortBy, RenameRule, Transform, Compiled, compile_rule, passes, min_bandwidth,
  max_latency, keep, matched, field_val, lowered, rename_with, sort_with, select, when, apply,
}
use sub_hub.Ops.Transform.Order.{Rankable, sort_with_sorts, DeadLast}
use sub_hub.Ops.Transform.InOrder.{InOrder}
use sub_hub.Common.Float.{F64, is_finite, float_ge}

abbrev pub is_ok : {A : Type 0} → Result A → Bool
is_ok (ok a) = true
is_ok (err e) = false

abbrev below : Option ℕ → (ℕ → Bool) → Bool
below none f = true
below (some x) f = f x

retain-retain :
    (f g : Proxy → Bool) (ps : List Proxy) → retain g (retain f ps) ≡ retain (λ p. f p && g p) ps
retain-retain f g [] = refl
retain-retain f g (p ∷ ps) = ground (arith, retain-retain f g ps)

retain-same :
    (f g : Proxy → Bool) → ((p : Proxy) → f p ≡ g p) → (ps : List Proxy) → retain f ps ≡ retain g ps
retain-same f g h ps = ap (λ k. retain k ps) (fun_ext h)

and_true : (b c d : Bool) → c ≡ true → d ≡ true → b ≡ (b && (c && d))
and_true b c d h k = ground arith

stages :
    (f : Proxy → Bool) (g h : ℕ → Proxy → Bool) (m l : Option ℕ) (ps : List Proxy)
    → when l (λ x. retain (h x)) (when m (λ x. retain (g x)) (retain f ps))
      ≡ retain (λ p. f p && (below m (λ x. g x p) && below l (λ x. h x p))) ps
stages f g h none none ps = retain-same f _ (λ p. ground arith) ps
stages f g h (some x) none ps =
    retain-retain f (g x) ps ∙ retain-same (λ p. f p && g x p) _ (λ p. ground arith) ps
stages f g h none (some y) ps =
    retain-retain f (h y) ps ∙ retain-same (λ p. f p && h y p) _ (λ p. ground arith) ps
stages f g h (some x) (some y) ps =
    ap (retain (h y)) (retain-retain f (g x) ps)
    ∙ retain-retain (λ p. f p && g x p) (h y) ps
    ∙ retain-same (λ p. (f p && g x p) && h y p) _ (λ p. ground arith) ps

-- The text that a filter looks at.
unfoldable pub looked_at : Unicode → FilterRule → Proxy → Text
looked_at u f p =
    if text_eq f.field (lit "type")
    then as_str p.type_
    else if text_eq f.field (lit "region")
    then effective_region u p
    else if text_eq f.field (lit "server")
    then p.server
    else p.name

-- The text in lower case, if it has an upper-case letter.
unfoldable pub small : Unicode → Text → Text
small u v = if every (λ c. not (u.is_uppercase c)) v then v else u.str_lowercase v

-- The filter lets the node through.
unfoldable pub lets_through : RegexEngine → Unicode → FilterRule → Proxy → Bool
lets_through r u f p =
    let found =
      if text_eq f.match_ (lit "regex")
      then (elim (r.compile f.value) [ err e ↦ false | ok x ↦ r.is_match x (looked_at u f p) ])
      else if text_eq f.match_ (lit "exact")
      then text_eq (looked_at u f p) f.value
      else contains (small u (looked_at u f p)) (u.str_lowercase f.value) in
    if text_eq f.mode (lit "exclude") then not found else found

-- Every filter lets the node through.
unfoldable pub all_let_through : RegexEngine → Unicode → List FilterRule → Proxy → Bool
all_let_through r u [] p = true
all_let_through r u (f ∷ fs) p = lets_through r u f p && all_let_through r u fs p

-- No finite bandwidth below the threshold was measured.
unfoldable pub fast_enough : Arithmetic → Option ℕ → Option F64 → Bool
fast_enough a none b = true
fast_enough a (some min) none = true
fast_enough a (some min) (some b) = not (is_finite b && not (float_ge b (a.of_u64 min)))

-- No latency above the limit was measured.
unfoldable pub near_enough : Option ℕ → Option ℕ → Bool
near_enough none l = true
near_enough (some max) none = true
near_enough (some max) (some l) = not (ltb max l)

min_bandwidth_lem :
    (a : Arithmetic) (m : Option ℕ) (b : Option F64)
    → below m (λ min. min_bandwidth a min b) ≡ fast_enough a m b
unfolding min_bandwidth fast_enough
min_bandwidth_lem a none b = refl
min_bandwidth_lem a (some min) none = refl
min_bandwidth_lem a (some min) (some b) = ground arith

max_latency_lem : (l x : Option ℕ) → below l (λ max. max_latency max x) ≡ near_enough l x
unfolding max_latency near_enough
max_latency_lem none x = refl
max_latency_lem (some max) none = refl
max_latency_lem (some max) (some x) = ground arith

field_val-looked_at :
    (u : Unicode) (p : Proxy) (f : FilterRule) → field_val u p f.field ≡ looked_at u f p
unfolding field_val looked_at text_eq
field_val-looked_at u p f = ground (
  arith,
  text_eq_iff f.field (lit "name"),
  text_eq_iff f.field (lit "type"),
  text_eq_iff f.field (lit "region"),
  text_eq_iff f.field (lit "server"),
)

any-every : (f : ℕ → Bool) (v : Text) → any f v ≡ not (every (λ c. not (f c)) v)
any-every f [] = refl
any-every f (c ∷ v) = ground (arith, any-every f v)

lowered-small : (u : Unicode) (v : Text) → lowered u v ≡ small u v
unfolding lowered small
lowered-small u v = ground (arith, any-every u.is_uppercase v)

module _ (r : RegexEngine) (u : Unicode) where
  compiled_lem :
      (g : Text → Text) (m : Result r.Regex) (f : FilterRule) (needle : Text) (c : Compiled r)
      → (map_err g m >>= (λ re. ok (f, some re, needle))) ≡ ok c
      → (x : r.Regex) × (m ≡ ok x) × (c ≡ (f, some x, needle))
  compiled_lem g (ok x) f needle c e = (x, refl, cc)
  compiled_lem g (err t) f needle c e = cc

  regex_lem :
      (f : FilterRule) (x : r.Regex) (needle : Text) (p : Proxy)
      → text_eq f.match_ (lit "regex") ≡ true
      → r.compile f.value ≡ ok x
      → keep r u p f (some x) needle ≡ lets_through r u f p
  unfolding keep matched lets_through
  regex_lem f x needle p regex m = rw (regex, m, field_val-looked_at u p f) refl

  plain_lem :
      (f : FilterRule) (p : Proxy)
      → text_eq f.match_ (lit "regex") ≡ false
      → keep r u p f none (u.str_lowercase f.value) ≡ lets_through r u f p
  unfolding keep matched lets_through
  plain_lem f p other =
      rw (other, field_val-looked_at u p f, lowered-small u (looked_at u f p)) refl

  -- A compiled rule decides as the filter that it was compiled from.
  matched_lem :
      (f : FilterRule) (c : Compiled r) (p : Proxy)
      → compile_rule r u f ≡ ok c
      → keep r u p c.0 c.1 c.2 ≡ lets_through r u f p
  unfolding compile_rule
  matched_lem f c p e = elim (Bool-cases (text_eq f.match_ (lit "regex"))) [
    | inl regex ↦
        let (x, m, same) = compiled_lem _ (r.compile f.value) f _ c (rw regex at e) in
        subst (λ c. keep r u p c.0 c.1 c.2 ≡ lets_through r u f p) (sym same)
          (regex_lem f x _ p regex m)
    | inr other ↦
        let plain : ok (f, none, u.str_lowercase f.value) ≡ ok c = rw other at e in
        let same : (f, none, u.str_lowercase f.value) ≡ c = cc in
        subst (λ c. keep r u p c.0 c.1 c.2 ≡ lets_through r u f p) same (plain_lem f p other)
  ]

  collect_lem :
      (f : FilterRule) (m : Result (Compiled r)) (ms : Result (List (Compiled r)))
      (rules : List (Compiled r))
      → (m >>= (λ y. ms >>= (λ ys. ok (y ∷ ys)))) ≡ ok rules
      → (c : Compiled r) × (cs : List (Compiled r)) × (m ≡ ok c) × (ms ≡ ok cs) × (c ∷ cs ≡ rules)
  collect_lem f (ok c) (ok cs) rules e = (c, cs, refl, refl, cc)
  collect_lem f (ok c) (err t) rules e = cc
  collect_lem f (err t) ms rules e = cc

  passes_lem :
      (fs : List FilterRule) (rules : List (Compiled r)) (p : Proxy)
      → collect (compile_rule r u) fs ≡ ok rules
      → passes r u rules p ≡ all_let_through r u fs p
  unfolding collect passes all_let_through
  passes_lem [] rules p e =
      let none_left : [] ≡ rules = cc in subst (λ l. passes r u l p ≡ true) none_left refl
  passes_lem (f ∷ fs) rules p e =
      let (c, cs, one, rest, same) =
        collect_lem f (compile_rule r u f) (collect (compile_rule r u) fs) rules e in
      subst (λ l. passes r u l p ≡ (lets_through r u f p && all_let_through r u fs p)) same
        (rw (matched_lem f c p one, passes_lem fs cs p rest) refl)

module _ (r : RegexEngine) (u : Unicode) (a : Arithmetic) (t : Transform) where
  -- All filters and both thresholds let the node through.
  unfoldable pub accepted : Proxy → Bool
  accepted p =
      all_let_through r u t.filters p
      && (fast_enough a t.min_bandwidth_bps p.download_speed_bps
          && near_enough t.max_latency_ms p.latency_ms)

  thresholds :
      (m l : Option ℕ) (p : Proxy)
      → (below m (λ min. min_bandwidth a min p.download_speed_bps)
          && below l (λ max. max_latency max p.latency_ms))
        ≡ (fast_enough a m p.download_speed_bps && near_enough l p.latency_ms)
  thresholds m l p = cc (min_bandwidth_lem a m p.download_speed_bps, max_latency_lem l p.latency_ms)

  select-retain :
      (rules : List (Compiled r)) (ps : List Proxy)
      → collect (compile_rule r u) t.filters ≡ ok rules
      → select r u a t rules ps ≡ retain accepted ps
  unfolding select accepted
  select-retain rules ps e =
      stages (passes r u rules) (λ min p. min_bandwidth a min p.download_speed_bps)
        (λ max p. max_latency max p.latency_ms) t.min_bandwidth_bps t.max_latency_ms ps
      ∙ retain-same _ _
          (λ p.
            cc (
              passes_lem r u t.filters rules p e,
              thresholds t.min_bandwidth_bps t.max_latency_ms p,
            ))
          ps

  -- With a sort rule, no rename rule and filters whose regexes compile, and no NaN among the speeds
  -- and scores: `apply` returns the nodes that every filter lets through, by its own mode and match,
  -- that have no finite bandwidth below the threshold and no latency above the limit, each as often
  -- as before and no other, in the order that the sort rule asks for, the dead ones last.
  pub apply-selects :
      (s : SortBy) (rules : List (Compiled r)) (ps : List Proxy)
      → t.sort ≡ some s
      → t.rename ≡ none
      → collect (compile_rule r u) t.filters ≡ ok rules
      → All (Rankable a) ps
      → (out : List Proxy) × (apply r u a ps t ≡ ok out)
        × Perm out (retain accepted ps)
        × InOrder a s out
        × DeadLast out
  unfolding apply rename_with
  apply-selects s rules ps es er ec h =
      let kept = retain accepted ps in
      let sorts = sort_with_sorts a s kept (All-retain (Rankable a) accepted ps h) in
      (
        sort_with a (some s) kept,
        simp (ec, er, es, select-retain rules ps ec),
        sorts.0,
        sorts.1,
        sorts.2,
      )

-- The regexes of the filters compile.
pub filters_compile : RegexEngine → List FilterRule → Bool
filters_compile r [] = true
filters_compile r (f ∷ fs) =
    (not (text_eq f.match_ (lit "regex")) || is_ok (r.compile f.value)) && filters_compile r fs

pub rename_compiles : RegexEngine → Option RenameRule → Bool
rename_compiles r none = true
rename_compiles r (some n) = is_ok (r.compile n.pattern)

is_ok-map : {A B : Type 0} (f : A → B) (m : Result A) → is_ok (m >>= (λ x. ok (f x))) ≡ is_ok m
is_ok-map f (ok x) = refl
is_ok-map f (err e) = refl

bind-is_ok :
    {A B C : Type 0} (m : Result A) (f : A → Result B) (g : B → C) (b : Bool)
    → ((x : A) → is_ok (f x) ≡ b)
    → is_ok (m >>= (λ x. f x >>= (λ y. ok (g y)))) ≡ (is_ok m && b)
bind-is_ok (ok x) f g b h = is_ok-map g (f x) ∙ h x
bind-is_ok (err e) f g b h = refl

module _ (r : RegexEngine) (u : Unicode) where
  collect-is_ok :
      (fs : List FilterRule) → is_ok (collect (compile_rule r u) fs) ≡ filters_compile r fs
  unfolding collect compile_rule filters_compile
  collect-is_ok [] = refl
  collect-is_ok (f ∷ fs) = ground (arith, collect-is_ok fs)

  rename-is_ok :
      (n : Option RenameRule) (ps : List Proxy) → is_ok (rename_with r n ps) ≡ rename_compiles r n
  unfolding rename_with rename_compiles
  rename-is_ok none ps = refl
  rename-is_ok (some n) ps = ground arith

  -- `apply` returns a list exactly if the regexes of all regex filters and of the rename rule compile;
  -- no other input makes it fail, and a regex that does not compile never yields a list.
  apply-is_ok :
      (a : Arithmetic) (ps : List Proxy) (t : Transform)
      → is_ok (apply r u a ps t) ≡ (filters_compile r t.filters && rename_compiles r t.rename)
  unfolding apply
  apply-is_ok a ps t =
      bind-is_ok (collect (compile_rule r u) t.filters)
        (λ rules. rename_with r t.rename (select r u a t rules ps)) (sort_with a t.sort) _
        (λ rules. rename-is_ok t.rename (select r u a t rules ps))
      ∙ rw (collect-is_ok t.filters)
