-- ===== src/Ops/Transform/Order.antt =====
-- The comparisons of `apply` order the nodes, NaNs excepted, and dead nodes sink to the bottom.
use Prim.Native.Nat.{ℕ}
use mathlib.Core.Path.{ap, ◌∙◌, fun_ext}
use mathlib.Core.List.{Perm}
use sub_hub.Common.{
  ◌≡◌, refl, Bool, true, false, Option, some, List, [], ◌∷◌, map, Text, lit, text_eq, unwrap_or,
  Ordering, if◌then◌else◌, All, Bool-cases, arith, inl, inr,
}
use sub_hub.Common.Float.{F64, float_zero, float_lt, is_nan, partial_cmp}
use sub_hub.Common.Sort.{
  reverse_order, is_gt, sort_by, sort_by-map, sort_by-perm, sort_by-Sorted, Sorted, IsOrderOn,
  compare-IsOrderOn, then_with-IsOrderOn, reverse_order-IsOrderOn,
}
use sub_hub.Model.Proxy.{Proxy, as_str, is_dead}
use sub_hub.Score.{Arithmetic, score_proxy}
use sub_hub.Ops.Transform.InOrder.{InOrder, precedes, by_rank-precedes}
use sub_hub.Ops.Transform.{
  SortBy, avail_rank, directed, latency_order, float_order, text_cmp, column_order, by_rank,
  keyed_order, sort_with,
}

abbrev speed : Proxy → F64
speed p = unwrap_or p.download_speed_bps float_zero

-- Neither the speed nor the score of the node is a NaN.
pub record Rankable (a : Arithmetic) (p : Proxy) : Type 0 where
  pub speed_is_number : is_nan (unwrap_or p.download_speed_bps float_zero) ≡ false
  pub score_is_number : is_nan (score_proxy a p) ≡ false

text_cmp-flip : (s t : Text) → text_cmp t s ≡ reverse_order (text_cmp s t)
unfolding text_cmp
text_cmp-flip [] [] = refl
text_cmp-flip [] (d ∷ t) = refl
text_cmp-flip (c ∷ s) [] = refl
text_cmp-flip (c ∷ s) (d ∷ t) = ground (arith, text_cmp-flip s t)

text_cmp_trans :
    (s t v : Text)
    → is_gt (text_cmp s t) ≡ false
    → is_gt (text_cmp t v) ≡ false
    → is_gt (text_cmp s v) ≡ false
unfolding text_cmp
text_cmp_trans [] t [] h k = refl
text_cmp_trans [] t (e ∷ v) h k = refl
text_cmp_trans (c ∷ s) [] v h k = cc
text_cmp_trans (c ∷ s) (d ∷ t) [] h k = cc
text_cmp_trans (c ∷ s) (d ∷ t) (e ∷ v) h k = ground (arith, text_cmp_trans s t v)

module _ {P : Proxy → Type 0} where
  by_text-IsOrderOn : (key : Proxy → Text) → IsOrderOn (λ p q. text_cmp (key p) (key q)) P
  by_text-IsOrderOn key = record {
    flip = λ x y px py. text_cmp-flip (key x) (key y);
    trans = λ x y z px py pz. text_cmp_trans (key x) (key y) (key z);
  }

  by_float-IsOrderOn :
      (key : Proxy → F64)
      → ((p : Proxy) → P p → is_nan (key p) ≡ false)
      → IsOrderOn (λ p q. float_order (key p) (key q)) P
  unfolding partial_cmp
  by_float-IsOrderOn key num = record {
    flip = λ x y px py. ground (arith, num x px, num y py);
    trans = λ x y z px py pz h k. ground (arith, num x px, num y py, num z pz);
  }

  directed-IsOrderOn :
      (c : Proxy → Proxy → Ordering) (desc : Bool)
      → IsOrderOn c P
      → IsOrderOn (λ p q. directed desc (c p q)) P
  directed-IsOrderOn c true o = reverse_order-IsOrderOn c o
  directed-IsOrderOn c false o = o

  latency_order-IsOrderOn :
      (column : Proxy → Option ℕ) (desc : Bool) → IsOrderOn (latency_order column desc) P
  latency_order-IsOrderOn column desc = directed-IsOrderOn _ desc (compare-IsOrderOn _)

-- A choice by a test is an order if both choices are.
if-IsOrderOn :
    {P : Proxy → Type 0} (b : Bool) (c d : Proxy → Proxy → Ordering)
    → IsOrderOn c P
    → IsOrderOn d P
    → IsOrderOn (λ p q. if b then c p q else d p q) P
if-IsOrderOn true c d o o' = o
if-IsOrderOn false c d o o' = o'

module _ (a : Arithmetic) where
  column_order-IsOrderOn :
      (key : Text) (desc : Bool) → IsOrderOn (column_order key desc) (Rankable a)
  unfolding column_order
  column_order-IsOrderOn key desc =
      if-IsOrderOn _ _ _ (latency_order-IsOrderOn (λ n. n.latency_ms) desc) (
        if-IsOrderOn _ _ _ (latency_order-IsOrderOn (λ n. n.tcp_latency_ms) desc) (
          if-IsOrderOn _ _ _ (latency_order-IsOrderOn (λ n. n.http_latency_ms) desc) (
            if-IsOrderOn _ _ _
              (directed-IsOrderOn _ desc (by_float-IsOrderOn speed (λ p h. h.speed_is_number)))
              (if-IsOrderOn _ _ _
                (directed-IsOrderOn _ desc (by_text-IsOrderOn (λ p. as_str p.type_)))
                (directed-IsOrderOn _ desc (by_text-IsOrderOn (λ p. p.name)))))))

  score_order : Bool → Proxy → Proxy → Ordering
  score_order desc p q = directed desc (float_order (score_proxy a p) (score_proxy a q))

  -- The comparison that a sort rule stands for.
  unfoldable order_of : SortBy → Proxy → Proxy → Ordering
  unfolding score_order
  order_of s p q =
      by_rank
        (λ x y.
          if text_eq s.key (lit "score")
          then score_order s.desc x y
          else column_order s.key s.desc x y)
        p q

  order_of-IsOrderOn : (s : SortBy) → IsOrderOn (order_of s) (Rankable a)
  unfolding order_of
  order_of-IsOrderOn s = then_with-IsOrderOn _ _ (compare-IsOrderOn avail_rank) (
      if-IsOrderOn _ _ _
        (directed-IsOrderOn _ s.desc
          (by_float-IsOrderOn (score_proxy a) (λ p h. h.score_is_number)))
        (column_order-IsOrderOn s.key s.desc))

  keyed : Proxy → ℕ × F64 × Proxy
  keyed p = (avail_rank p, score_proxy a p, p)

  map-keyed : (ps : List Proxy) → map (λ x. x.2) (map keyed ps) ≡ ps
  unfolding keyed
  map-keyed [] = refl
  map-keyed (p ∷ ps) = ap (λ l. p ∷ l) (map-keyed ps)

  module _ (s : SortBy) where
    order_of-keyed :
        text_eq s.key (lit "score") ≡ true
        → (p q : Proxy) → keyed_order s.desc (keyed p) (keyed q) ≡ order_of s p q
    unfolding order_of keyed
    order_of-keyed e p q = rw e

    order_of-column :
        text_eq s.key (lit "score") ≡ false
        → (p q : Proxy) → by_rank (column_order s.key s.desc) p q ≡ order_of s p q
    unfolding order_of
    order_of-column e p q = rw e

    -- Sorting the triples of the `score` key is sorting the nodes.
    sort_with-sort_by : (ps : List Proxy) → sort_with a (some s) ps ≡ sort_by (order_of s) ps
    unfolding sort_with keyed
    sort_with-sort_by ps = elim (Bool-cases (text_eq s.key (lit "score"))) [
      | inl e ↦ rw e (
          ap (map (λ x. x.2))
            (sort_by-map keyed (order_of s) (keyed_order s.desc) (order_of-keyed e) ps)
          ∙ map-keyed (sort_by (order_of s) ps))
      | inr e ↦ rw e (ap (λ c. sort_by c ps) (fun_ext (λ p. fun_ext (λ q. order_of-column e p q))))
    ]

-- The dead nodes stand behind all others.
abbrev pub DeadLast : List Proxy → Type 0
DeadLast [] = Unit
DeadLast (p ∷ ps) =
    (is_dead p.available ≡ true → All (λ q. is_dead q.available ≡ true) ps) × DeadLast ps

module _ (a : Arithmetic) (s : SortBy) where
  dead_before :
      (p q : Proxy)
      → is_gt (order_of a s p q) ≡ false
      → is_dead p.available ≡ true
      → is_dead q.available ≡ true
  unfolding order_of avail_rank
  dead_before p q h d = ground arith

  All-dead :
      (p : Proxy) (qs : List Proxy)
      → All (λ q. is_gt (order_of a s p q) ≡ false) qs
      → is_dead p.available ≡ true
      → All (λ q. is_dead q.available ≡ true) qs
  All-dead p [] h d = tt
  All-dead p (q ∷ qs) h d = (dead_before p q h.0 d, All-dead p qs h.1 d)

  Sorted-DeadLast : (ps : List Proxy) → Sorted (order_of a s) ps → DeadLast ps
  Sorted-DeadLast [] h = tt
  Sorted-DeadLast (p ∷ ps) h = (All-dead p ps h.0, Sorted-DeadLast ps h.1)

  All-precedes :
      (p : Proxy) (qs : List Proxy)
      → All (λ q. is_gt (order_of a s p q) ≡ false) qs
      → All (λ q. precedes a s p q ≡ true) qs
  unfolding order_of
  All-precedes p [] h = tt
  All-precedes p (q ∷ qs) h = (by_rank-precedes a s p q h.0, All-precedes p qs h.1)

  Sorted-InOrder : (ps : List Proxy) → Sorted (order_of a s) ps → InOrder a s ps
  Sorted-InOrder [] h = tt
  Sorted-InOrder (p ∷ ps) h = (All-precedes p ps h.0, Sorted-InOrder ps h.1)

  -- If no node's speed or score is a NaN, then for every sort key and direction the result has the
  -- given nodes in another order, in which every node may stand before each later one: a dead node
  -- before dead ones only, and nodes alike in this by the key in the direction asked for, where a
  -- missing latency counts as 2 ^ 64 - 1 and a missing speed as zero.
  pub sort_with_sorts :
      (ps : List Proxy)
      → All (Rankable a) ps
      → Perm (sort_with a (some s) ps) ps
        × InOrder a s (sort_with a (some s) ps)
        × DeadLast (sort_with a (some s) ps)
  sort_with_sorts ps h = rw (sort_with-sort_by a s ps) (
      let sorted = sort_by-Sorted (order_of a s) (order_of-IsOrderOn a s) ps h in
      (sort_by-perm (order_of a s) ps, Sorted-InOrder _ sorted, Sorted-DeadLast _ sorted))

-- A node whose speed is a NaN ties with every node under the ascending `speed` key, also with two
-- nodes that are as alive as it is and that the key puts in order: the comparison is not transitive.
speed_order-nan :
    (n p q : Proxy)
    → avail_rank n ≡ avail_rank p
    → avail_rank n ≡ avail_rank q
    → is_nan (unwrap_or n.download_speed_bps float_zero) ≡ true
    → float_lt
        (unwrap_or p.download_speed_bps float_zero)
        (unwrap_or q.download_speed_bps float_zero)
      ≡ true
    → (by_rank (column_order (lit "speed") false) q n ≡ Ordering.eq)
      × (by_rank (column_order (lit "speed") false) n p ≡ Ordering.eq)
      × (by_rank (column_order (lit "speed") false) q p ≡ Ordering.gt)
unfolding column_order partial_cmp float_lt text_eq
speed_order-nan n p q ep eq nan lt = ground arith
