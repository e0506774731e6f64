-- ===== src/Ops/Transform/InOrder.antt =====
-- The order that a sort rule asks for (core/src/ops.rs), told without the comparisons of the code.
use Prim.Native.Nat.{ℕ}
use sub_hub.Common.{
  ◌≡◌, refl, Bool, true, false, not, ◌&&◌, ◌||◌, ◌==◌, Option, none, some, List, [], ◌∷◌, Text, lit,
  ltb, leb, text_eq, unwrap_or, compare, Ordering, if◌then◌else◌, All, arith,
}
use sub_hub.Common.Float.{F64, float_zero, float_lt, partial_cmp}
use sub_hub.Common.Sort.{is_gt, reverse_order}
use sub_hub.Model.Proxy.{Proxy, as_str, is_dead}
use sub_hub.Score.{Arithmetic, score_proxy}
use sub_hub.Ops.Transform.{
  SortBy, avail_rank, u64_max, directed, float_order, text_cmp, column_order, by_rank,
}

-- Texts in the order of a dictionary.
unfoldable pub text_le : Text → Text → Bool
text_le [] t = true
text_le (c ∷ s) [] = false
text_le (c ∷ s) (d ∷ t) = ltb c d || (c == d && text_le s t)

-- A missing latency counts as the largest number of 64 bits.
unfoldable pub waited : Option ℕ → ℕ
waited none = 18446744073709551615
waited (some ms) = ms

-- A missing speed counts as zero.
unfoldable pub speed_of : Option F64 → F64
speed_of none = float_zero
speed_of (some s) = s

-- The node may stand before the other under the key, smallest first.
unfoldable pub ascending : Arithmetic → Text → Proxy → Proxy → Bool
ascending a key p q =
    if text_eq key (lit "score")
    then not (float_lt (score_proxy a q) (score_proxy a p))
    else if text_eq key (lit "latency")
    then leb (waited p.latency_ms) (waited q.latency_ms)
    else if text_eq key (lit "tcplat")
    then leb (waited p.tcp_latency_ms) (waited q.tcp_latency_ms)
    else if text_eq key (lit "httplat")
    then leb (waited p.http_latency_ms) (waited q.http_latency_ms)
    else if text_eq key (lit "speed")
    then not (float_lt (speed_of q.download_speed_bps) (speed_of p.download_speed_bps))
    else if text_eq key (lit "type")
    then text_le (as_str p.type_) (as_str q.type_)
    else text_le p.name q.name

-- The node may stand before the other: a node that was found unavailable only before such nodes,
-- any other before these, and nodes alike in this by the key in the direction of the rule.
unfoldable pub precedes : Arithmetic → SortBy → Proxy → Proxy → Bool
precedes a s p q =
    if is_dead p.available && not (is_dead q.available)
    then false
    else if is_dead q.available && not (is_dead p.available)
    then true
    else if s.desc
    then ascending a s.key q p
    else ascending a s.key p q

-- Every node may stand before every later one.
abbrev pub InOrder : Arithmetic → SortBy → List Proxy → Type 0
InOrder a s [] = Unit
InOrder a s (p ∷ ps) = All (λ q. precedes a s p q ≡ true) ps × InOrder a s ps

text_cmp-text_le : (s t : Text) → is_gt (text_cmp s t) ≡ false → text_le s t ≡ true
unfolding text_cmp text_le
text_cmp-text_le [] [] h = refl
text_cmp-text_le [] (d ∷ t) h = refl
text_cmp-text_le (c ∷ s) [] h = cc
text_cmp-text_le (c ∷ s) (d ∷ t) h = ground (arith, text_cmp-text_le s t)

reverse-text_le : (s t : Text) → is_gt (reverse_order (text_cmp s t)) ≡ false → text_le t s ≡ true
unfolding text_cmp text_le
reverse-text_le [] [] h = refl
reverse-text_le [] (d ∷ t) h = cc
reverse-text_le (c ∷ s) [] h = refl
reverse-text_le (c ∷ s) (d ∷ t) h = ground (arith, reverse-text_le s t)

-- What a comparison in a direction says of a relation, if each direction of it says so.
directed_lem :
    (desc : Bool) (o : Ordering) (down up : Bool)
    → (is_gt o ≡ false → up ≡ true)
    → (is_gt (reverse_order o) ≡ false → down ≡ true)
    → is_gt (directed desc o) ≡ false
    → (if desc then down else up) ≡ true
directed_lem true o down up f g h = g h
directed_lem false o down up f g h = f h

text_lem :
    (desc : Bool) (s t : Text)
    → is_gt (directed desc (text_cmp s t)) ≡ false
    → (if desc then text_le t s else text_le s t) ≡ true
text_lem desc s t =
    directed_lem desc (text_cmp s t) _ _ (text_cmp-text_le s t) (reverse-text_le s t)

waited_lem : (x : Option ℕ) → unwrap_or x u64_max ≡ waited x
unfolding waited
waited_lem none = refl
waited_lem (some n) = refl

compare_lem :
    (desc : Bool) (x y : ℕ)
    → is_gt (directed desc (compare x y)) ≡ false
    → (if desc then leb y x else leb x y) ≡ true
compare_lem desc x y = directed_lem desc (compare x y) _ _ (λ h. ground arith) (λ h. ground arith)

latency_lem :
    (desc : Bool) (x y : Option ℕ)
    → is_gt (directed desc (compare (unwrap_or x u64_max) (unwrap_or y u64_max))) ≡ false
    → (if desc then leb (waited y) (waited x) else leb (waited x) (waited y)) ≡ true
latency_lem desc x y h =
    compare_lem desc (waited x) (waited y) (rw (waited_lem x, waited_lem y) at h)

float_lem :
    (desc : Bool) (x y : F64)
    → is_gt (directed desc (float_order x y)) ≡ false
    → (if desc then not (float_lt x y) else not (float_lt y x)) ≡ true
unfolding partial_cmp float_lt
float_lem desc x y = directed_lem desc (float_order x y) _ _ (λ h. ground arith) (λ h. ground arith)

speed_lem : (x : Option F64) → unwrap_or x float_zero ≡ speed_of x
unfolding speed_of
speed_lem none = refl
speed_lem (some n) = refl

speeds_lem :
    (desc : Bool) (x y : Option F64)
    → is_gt (directed desc (float_order (unwrap_or x float_zero) (unwrap_or y float_zero))) ≡ false
    → (if desc
        then not (float_lt (speed_of x) (speed_of y))
        else not (float_lt (speed_of y) (speed_of x)))
      ≡ true
speeds_lem desc x y h =
    float_lem desc (speed_of x) (speed_of y) (rw (speed_lem x, speed_lem y) at h)

-- The choice of a column: a pair of tests says what the pair of its branches says.
choose :
    (b desc : Bool) (c d : Ordering) (down up down' up' : Bool)
    → (is_gt c ≡ false → (if desc then down else up) ≡ true)
    → (is_gt d ≡ false → (if desc then down' else up') ≡ true)
    → is_gt (if b then c else d) ≡ false
    → (if desc then (if b then down else down') else (if b then up else up')) ≡ true
choose true desc c d down up down' up' f g = f
choose false desc c d down up down' up' f g = g

column_lem :
    (a : Arithmetic) (key : Text) (desc : Bool) (p q : Proxy)
    → is_gt (
        if text_eq key (lit "score")
        then directed desc (float_order (score_proxy a p) (score_proxy a q))
        else column_order key desc p q)
      ≡ false
    → (if desc then ascending a key q p else ascending a key p q) ≡ true
unfolding ascending column_order
column_lem a key desc p q =
    choose _ desc _ _ _ _ _ _ (float_lem desc (score_proxy a p) (score_proxy a q)) (
      choose _ desc _ _ _ _ _ _ (latency_lem desc p.latency_ms q.latency_ms) (
        choose _ desc _ _ _ _ _ _ (latency_lem desc p.tcp_latency_ms q.tcp_latency_ms) (
          choose _ desc _ _ _ _ _ _ (latency_lem desc p.http_latency_ms q.http_latency_ms) (
            choose _ desc _ _ _ _ _ _ (speeds_lem desc p.download_speed_bps q.download_speed_bps) (
              choose _ desc _ _ _ _ _ _ (text_lem desc (as_str p.type_) (as_str q.type_))
                (text_lem desc p.name q.name))))))

pub by_rank-precedes :
    (a : Arithmetic) (s : SortBy) (p q : Proxy)
    → is_gt (
        by_rank
          (λ x y.
            if text_eq s.key (lit "score")
            then directed s.desc (float_order (score_proxy a x) (score_proxy a y))
            else column_order s.key s.desc x y)
          p
          q)
      ≡ false
    → precedes a s p q ≡ true
unfolding precedes avail_rank
by_rank-precedes a s p q h = ground (arith, column_lem a s.key s.desc p q)
