-- ===== src/Server/Dashboard/Counts.antt =====
-- What the dashboard counts.
use mathlib.Core.Path.{ap, ◌∙◌}
use sub_hub.Common.{
  ℕ, ◌+◌, ◌≡◌, refl, Bool, true, false, Option, none, some, List, [], ◌∷◌, Text, length, retain,
  ◌&&◌, text_eq, text_eq_iff, arith, if◌then◌else◌, Bool-cases, inl, inr,
}
use sub_hub.Common.Float.{F64, float_zero, float_lt, is_finite}
use sub_hub.Model.Proxy.{Proxy, as_str, is_alive, is_dead}
use sub_hub.Model.Region.{Unicode, effective_region}
use sub_hub.Model.Subscription.{Subscription}
use sub_hub.Score.{Arithmetic}
use sub_hub.Server.Selection.{flatten_dedup}
use sub_hub.Server.Dashboard.{
  bump, Totals, no_totals, count_state, count_tcp, count_http, count_bandwidth, count_node,
  count_all, summarised,
}

-- The number that a map has for a key.
unfoldable pub entry : Text → List (Text × ℕ) → ℕ
entry k [] = 0
entry k ((j, n) ∷ m) = if text_eq j k then n else entry k m

entry-bump :
    (k j : Text) (m : List (Text × ℕ))
    → entry k (bump j m) ≡ (if text_eq j k then entry k m + 1 else entry k m)
unfolding entry bump
entry-bump k j [] = ground arith
entry-bump k j ((i, n) ∷ m) =
    ground (arith, entry-bump k j m, text_eq_iff i j, text_eq_iff i k, text_eq_iff j k)

-- The counts that the bandwidths and latencies leave alone.
abbrev Same : Totals → Totals → Type 0
Same t t' =
    (t'.by_type ≡ t.by_type)
    × (t'.by_region ≡ t.by_region)
    × (t'.available ≡ t.available)
    × (t'.unavailable ≡ t.unavailable)
    × (t'.untested ≡ t.untested)

Same-trans : (r s t : Totals) → Same r s → Same s t → Same r t
Same-trans r s t h k = (cc, cc, cc, cc, cc)

count_tcp-Same : (o : Option ℕ) (t : Totals) → Same t (count_tcp o t)
count_tcp-Same none t = (refl, refl, refl, refl, refl)
count_tcp-Same (some ms) t = (refl, refl, refl, refl, refl)

count_http-Same : (o : Option ℕ) (t : Totals) → Same t (count_http o t)
count_http-Same none t = (refl, refl, refl, refl, refl)
count_http-Same (some ms) t = (refl, refl, refl, refl, refl)

count_bandwidth-Same :
    (a : Arithmetic) (o : Option F64) (t : Totals) → Same t (count_bandwidth a o t)
count_bandwidth-Same a none t = (refl, refl, refl, refl, refl)
count_bandwidth-Same a (some b) t = elim (Bool-cases (is_finite b && float_lt float_zero b)) [
  | inl e ↦ rw e (refl, refl, refl, refl, refl)
  | inr e ↦ rw e (refl, refl, refl, refl, refl)
]

abbrev pub of_type : Text → Proxy → Bool
of_type k p = text_eq (as_str p.type_) k

abbrev pub of_region : Unicode → Text → Proxy → Bool
of_region u k p = text_eq (effective_region u p) k

abbrev pub alive : Proxy → Bool
alive p = is_alive p.available

abbrev pub dead : Proxy → Bool
dead p = is_dead p.available

abbrev one : Bool → ℕ
one true = 1
one false = 0

length-retain {ℓ} :
    {A : Type ℓ} (f : A → Bool) (x : A) (xs : List A)
    → length (retain f (x ∷ xs)) ≡ one (f x) + length (retain f xs)
length-retain f x xs = ground arith

count_state_lem :
    (o : Option Bool) (t : Totals)
    → ((count_state o t).by_type ≡ t.by_type)
      × ((count_state o t).by_region ≡ t.by_region)
      × ((count_state o t).available ≡ t.available + one (is_alive o))
      × ((count_state o t).unavailable ≡ t.unavailable + one (is_dead o))
      × ((count_state o t).available + (count_state o t).unavailable + (count_state o t).untested
          ≡ t.available + t.unavailable + t.untested + 1)
count_state_lem (some true) t = (refl, refl, refl, omega arith, omega arith)
count_state_lem (some false) t = (refl, refl, omega arith, refl, omega arith)
count_state_lem none t = (refl, refl, omega arith, omega arith, omega arith)

module _ (u : Unicode) (a : Arithmetic) where
  -- What the loop adds for the nodes `ps`.
  abbrev Counted : Totals → List Proxy → Totals → Type 0
  Counted t ps t' =
      ((k : Text) → entry k t'.by_type ≡ entry k t.by_type + length (retain (of_type k) ps))
      × ((k : Text)
          → entry k t'.by_region ≡ entry k t.by_region + length (retain (of_region u k) ps))
      × (t'.available ≡ t.available + length (retain alive ps))
      × (t'.unavailable ≡ t.unavailable + length (retain dead ps))
      × (t'.available + t'.unavailable + t'.untested
          ≡ t.available + t.unavailable + t.untested + length ps)

  count_node-Counted : (t : Totals) (p : Proxy) → Counted t (p ∷ []) (count_node u a t p)
  unfolding count_node
  count_node-Counted t p =
      let t₁ : Totals = record t {
        by_type = bump (as_str p.type_) t.by_type;
        by_region = bump (effective_region u p) t.by_region;
      } in
      let t₂ = count_state p.available t₁ in
      let t₃ = count_tcp p.latency_ms t₂ in
      let t₄ = count_http p.http_latency_ms t₃ in
      let t₅ = count_bandwidth a p.download_speed_bps t₄ in
      let state = count_state_lem p.available t₁ in
      let same : Same t₂ t₅ =
        Same-trans t₂ t₄ t₅
          (Same-trans t₂ t₃ t₄ (count_tcp-Same p.latency_ms t₂)
            (count_http-Same p.http_latency_ms t₃))
          (count_bandwidth-Same a p.download_speed_bps t₄) in
      (
        λ k.
            ap (entry k) (same.0 ∙ state.0)
            ∙ entry-bump k (as_str p.type_) t.by_type
            ∙ ground arith,
        λ k.
            ap (entry k) (same.1 ∙ state.1)
            ∙ entry-bump k (effective_region u p) t.by_region
            ∙ ground arith,
        same.2 ∙ state.2 ∙ ground arith,
        same.3 ∙ state.3 ∙ ground arith,
        omega (arith, same, state),
      )

  count_all-Counted : (t : Totals) (ps : List Proxy) → Counted t ps (count_all u a t ps)
  unfolding count_all
  count_all-Counted t [] =
      (λ k. omega arith, λ k. omega arith, omega arith, omega arith, omega arith)
  count_all-Counted t (p ∷ ps) =
      let first = count_node-Counted t p in
      let rest = count_all-Counted (count_node u a t p) ps in
      (
        λ k. omega (
          arith,
          first.0 k,
          rest.0 k,
          length-retain (of_type k) p ps,
          length-retain (of_type k) p [],
        ),
        λ k. omega (
          arith,
          first.1 k,
          rest.1 k,
          length-retain (of_region u k) p ps,
          length-retain (of_region u k) p [],
        ),
        omega (arith, first.2, rest.2, length-retain alive p ps, length-retain alive p []),
        omega (arith, first.3, rest.3, length-retain dead p ps, length-retain dead p []),
        omega (arith, first.4, rest.4),
      )

-- The dashboard counts the nodes of the store without duplicates: for each type and each region it
-- has the number of nodes of it, it has the numbers of those found available and unavailable, and
-- with the untested ones they make up the total.
pub summarised-counts :
    (u : Unicode) (a : Arithmetic) (store : List Subscription) (k : Text)
    → (entry k (summarised u a store).by_type
        ≡ length (retain (of_type k) (flatten_dedup none store)))
      × (entry k (summarised u a store).by_region
          ≡ length (retain (of_region u k) (flatten_dedup none store)))
      × ((summarised u a store).available ≡ length (retain alive (flatten_dedup none store)))
      × ((summarised u a store).unavailable ≡ length (retain dead (flatten_dedup none store)))
      × ((summarised u a store).available
            + (summarised u a store).unavailable
            + (summarised u a store).untested
          ≡ (summarised u a store).total)
unfolding summarised
summarised-counts u a store k =
    let h = count_all-Counted u a no_totals (flatten_dedup none store) in
    let empty : entry k [] ≡ 0 = unfold entry in refl in
    (
      omega (arith, h.0 k, empty),
      omega (arith, h.1 k, empty),
      omega (arith, h.2),
      omega (arith, h.3),
      omega (arith, h.4),
    )
