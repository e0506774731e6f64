-- ===== src/Model/Health/Recompute.antt =====
-- The counts and latencies that `SubscriptionHealth::recompute` derives.
use Prim.Native.Nat.{min}
use sub_hub.Common.{
  ℕ, suc, ◌+◌, ◌*◌, ◌≤◌, ◌<◌, ◌^◌, ◌/◌, ◌≡◌, refl, Bool, true, false, Option, none, some, List, [],
  ◌∷◌, length, arith, if◌then◌else◌, All,
}
use sub_hub.Model.Proxy.{Proxy, is_dead, is_alive}
use sub_hub.Model.Health.{
  SubscriptionHealth, Tally, no_tally, tally_node, tally, recompute, checked_div, smaller,
}

-- The nodes whose `available` passes a test.
unfoldable pub count_where : (Option Bool → Bool) → List Proxy → ℕ
count_where f [] = 0
count_where f (p ∷ ps) = (if f p.available then 1 else 0) + count_where f ps

abbrev pub is_untested : Option Bool → Bool
is_untested none = true
is_untested (some b) = false

tally-counts :
    (t : Tally) (ps : List Proxy)
    → ((tally t ps).avail ≡ t.avail + count_where is_alive ps)
      × ((tally t ps).unk ≡ t.unk + count_where is_untested ps)
unfolding tally tally_node count_where
tally-counts t [] = omega arith
tally-counts t (p ∷ ps) = ground (arith, tally-counts (tally_node t p) ps)

pub count_where-length :
    (ps : List Proxy)
    → count_where is_alive ps + count_where is_untested ps + count_where is_dead ps ≡ length ps
unfolding count_where
count_where-length [] = refl
count_where-length (p ∷ ps) = ground (arith, count_where-length ps)

-- The derived counts are those of the nodes found available and of the untested nodes, and with
-- the nodes found dead they make up all nodes. The other fields of the record stay as they are.
pub recompute-counts :
    (h : SubscriptionHealth) (ps : List Proxy)
    → ((recompute h ps).healthy_node_count ≡ count_where is_alive ps)
      × ((recompute h ps).unknown_node_count ≡ count_where is_untested ps)
      × ((recompute h ps).healthy_node_count
            + (recompute h ps).unknown_node_count
            + count_where is_dead ps
          ≡ (recompute h ps).node_count)
      × ((recompute h ps).last_error ≡ h.last_error)
      × ((recompute h ps).last_healthy_at ≡ h.last_healthy_at)
unfolding recompute
recompute-counts h ps = ground (arith, tally-counts no_tally ps, count_where-length ps)

-- The latencies that count: those of the nodes that are not dead.
unfoldable pub latencies : List Proxy → List ℕ
latencies [] = []
latencies (p ∷ ps) =
    let rest = latencies ps in
    if is_dead p.available then rest else elim p.latency_ms [ none ↦ rest | some ms ↦ ms ∷ rest ]

unfoldable pub total : List ℕ → ℕ
total [] = 0
total (x ∷ xs) = x + total xs

-- The least of the numbers and a first one.
least : Option ℕ → List ℕ → Option ℕ
least b [] = b
least b (x ∷ xs) = least (some (smaller b x)) xs

tally-latencies :
    (t : Tally) (ps : List Proxy)
    → t.sum + total (latencies ps) < 2 ^ 64
    → ((tally t ps).sum ≡ t.sum + total (latencies ps))
      × ((tally t ps).n ≡ t.n + length (latencies ps))
      × ((tally t ps).best ≡ least t.best (latencies ps))
unfolding tally tally_node latencies total least
tally-latencies t [] h = (omega arith, omega arith, refl)
tally-latencies t (p ∷ ps) h = ground (arith, tally-latencies (tally_node t p) ps)

least-le :
    (b : ℕ) (xs : List ℕ) (m : ℕ) → least (some b) xs ≡ some m → (m ≤ b) × All (λ x. m ≤ x) xs
unfolding least
least-le b [] m e = ground arith
least-le b (x ∷ xs) m e = ground (arith, least-le (min b x) xs m)

least-some : (b : ℕ) (xs : List ℕ) → (m : ℕ) × (least (some b) xs ≡ some m)
unfolding least
least-some b [] = (b, refl)
least-some b (x ∷ xs) = least-some (min b x) xs

mul_length-le-total : (m : ℕ) (xs : List ℕ) → All (λ x. m ≤ x) xs → m * length xs ≤ total xs
unfolding total
mul_length-le-total m [] h = omega arith
mul_length-le-total m (x ∷ xs) h = grind (arith, h.0, mul_length-le-total m xs h.1)

-- What the latencies of a subscription say of them: the best is the least, and the average is the
-- mean rounded down.
abbrev pub Summarises : List ℕ → Option ℕ → Option ℕ → Type 0
Summarises [] best avg = (best ≡ none) × (avg ≡ none)
Summarises (x ∷ xs) best avg =
    (b : ℕ) × (a : ℕ) × (best ≡ some b)
    × (avg ≡ some a)
    × All (λ l. b ≤ l) (x ∷ xs)
    × (b ≤ a)
    × (a * length (x ∷ xs) ≤ total (x ∷ xs))
    × (total (x ∷ xs) < (a + 1) * length (x ∷ xs))

le-div : (m t n : ℕ) → 0 < n → m * n ≤ t → m ≤ t / n
le-div m t n h k = grind arith

div-le : (t n : ℕ) → 0 < n → (t / n * n ≤ t) × (t < (t / n + 1) * n)
div-le t n h = (grind arith, grind arith)

summary : (l : List ℕ) → Summarises l (least none l) (checked_div (total l) (length l))
unfolding least total
summary [] = (refl, refl)
summary (x ∷ xs) =
    let (m, e) = least-some x xs in
    let (p, q) = least-le x xs m e in
    let t = x + total xs in
    let n = suc (length xs) in
    (
      m,
      t / n,
      e,
      ground arith,
      (p, q),
      le-div m t n (omega arith) (mul_length-le-total m (x ∷ xs) (p, q)),
      (div-le t n (omega arith)).0,
      (div-le t n (omega arith)).1,
    )

-- If the latencies of the nodes that are not dead add up to less than 2 ^ 64, then `recompute`
-- sets the best latency to their least and the average to their mean rounded down, which is not
-- below the best; without such a latency it sets both to `None`.
recompute-latencies :
    (h : SubscriptionHealth) (ps : List Proxy)
    → total (latencies ps) < 2 ^ 64
    → Summarises (latencies ps) (recompute h ps).best_latency_ms (recompute h ps).avg_latency_ms
unfolding recompute
recompute-latencies h ps small =
    let facts = tally-latencies no_tally ps (omega arith) in
    let s : (tally no_tally ps).sum ≡ total (latencies ps) = omega (arith, facts.0) in
    let n : (tally no_tally ps).n ≡ length (latencies ps) = omega (arith, facts.1) in
    rw (s, n, facts.2) (summary (latencies ps))
