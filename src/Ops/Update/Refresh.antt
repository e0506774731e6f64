-- ===== src/Ops/Update/Refresh.antt =====
-- `incremental_update` against its description: the fetched nodes without duplicates, each with
-- the measurements of the stored node that it survives.
use mathlib.Core.Path.{ap, ◌∙◌}
use sub_hub.Common.{
  ◌≡◌, refl, Bool, false, not, none, some, List, [], ◌∷◌, map, Text, retain, All, contains_text,
  text_eq_iff, eq→text_eq, is_some, Option-cases, arith, inl, inr,
}
use sub_hub.Common.Lookup.{lookup_last}
use sub_hub.Model.Proxy.{Proxy, ProxyType, ss, ss_method_value}
use sub_hub.Model.Fingerprint.{fingerprint, credential, extra_parts}
use sub_hub.Model.Merge.{merge, merge_from}
use sub_hub.Model.Merge.Dedup.{Distinct, fingerprints, merge-Distinct}
use sub_hub.Ops.Update.{carry_over, by_fingerprint, update_from, incremental_update}

module _ (o n : Proxy) where
  credential-carry_over : (t : ProxyType) → credential t (carry_over o n) ≡ credential t n
  unfolding credential carry_over ss_method_value
  credential-carry_over ss = refl
  credential-carry_over _ = refl

  extra_parts-carry_over : (t : ProxyType) → extra_parts t (carry_over o n) ≡ extra_parts t n
  unfolding extra_parts carry_over
  extra_parts-carry_over ss = refl
  extra_parts-carry_over _ = refl

  -- Measurements are no part of the identity.
  pub fingerprint-carry_over : fingerprint (carry_over o n) ≡ fingerprint n
  unfolding fingerprint carry_over
  fingerprint-carry_over = cc (credential-carry_over n.type_, extra_parts-carry_over n.type_)

-- The fetched node `n` with every measurement of the stored node `o`.
unfoldable pub measured : Proxy → Proxy → Proxy
measured o n = record n {
  latency_ms = o.latency_ms;
  tcp_latency_ms = o.tcp_latency_ms;
  http_latency_ms = o.http_latency_ms;
  available = o.available;
  download_speed_bps = o.download_speed_bps;
  bandwidth_measured = o.bandwidth_measured;
  last_tested_at = o.last_tested_at;
  consecutive_failures = o.consecutive_failures;
  outbound_country = o.outbound_country;
  unlock = o.unlock;
}

-- The node that is expected in the place of a fetched one.
unfoldable pub survivor : List Proxy → Proxy → Proxy
unfolding measured
survivor old n = elim (lookup_last (fingerprint n) (by_fingerprint old)) [
  | none ↦ n
  | some o ↦ measured o n
]

-- No stored node has the fingerprint.
unfoldable pub is_new : List Proxy → Proxy → Bool
is_new old n = not (is_some (lookup_last (fingerprint n) (by_fingerprint old)))

update_from-merge_from :
    (old : List Proxy) (seen : List Text) (ns : List Proxy)
    → update_from (by_fingerprint old) seen ns
      ≡ (map (survivor old) (merge_from seen ns), retain (is_new old) (merge_from seen ns))
unfolding update_from merge_from survivor is_new carry_over measured
update_from-merge_from old seen [] = refl
update_from-merge_from old seen (n ∷ ns) = ground (
  arith,
  update_from-merge_from old seen ns,
  update_from-merge_from old (fingerprint n ∷ seen) ns,
)

-- The merged list is the deduplicated fetch with each node's measurements carried over from the
-- stored node of its fingerprint, and the new nodes are those of it that no stored node matches.
pub incremental_update_lem :
    (old new : List Proxy)
    → incremental_update old new ≡ (map (survivor old) (merge new), retain (is_new old) (merge new))
unfolding incremental_update merge
incremental_update_lem old new = update_from-merge_from old [] new

fingerprint-survivor : (old : List Proxy) (n : Proxy) → fingerprint (survivor old n) ≡ fingerprint n
unfolding survivor carry_over measured
fingerprint-survivor old n =
    elim (Option-cases (lookup_last (fingerprint n) (by_fingerprint old))) [
      | inl e ↦ rw (e, survivor)
      | inr (o, e) ↦ rw (e, survivor) (fingerprint-carry_over o n)
    ]

fingerprints-survivor :
    (old ns : List Proxy) → fingerprints (map (survivor old) ns) ≡ fingerprints ns
fingerprints-survivor old [] = refl
fingerprints-survivor old (n ∷ ns) = cc (fingerprint-survivor old n, fingerprints-survivor old ns)

-- The merged list has the identities of the deduplicated fetch, in its order, each once.
pub fingerprints-incremental_update :
    (old new : List Proxy)
    → (fingerprints (incremental_update old new).0 ≡ fingerprints (merge new))
      × Distinct (fingerprints (incremental_update old new).0)
fingerprints-incremental_update old new =
    let e : fingerprints (incremental_update old new).0 ≡ fingerprints (merge new) =
      rw (incremental_update_lem old new) (fingerprints-survivor old (merge new)) in
    (e, rw e (merge-Distinct new))

-- Each node is found by its fingerprint.
abbrev Found : List Proxy → List Proxy → Type 0
Found all = All (λ p. lookup_last (fingerprint p) (by_fingerprint all) ≡ some p)

lookup_last-absent :
    (t : Text) (ps : List Proxy)
    → contains_text (fingerprints ps) t ≡ false
    → lookup_last t (by_fingerprint ps) ≡ none
unfolding lookup_last contains_text
lookup_last-absent t [] h = refl
lookup_last-absent t (p ∷ ps) h =
    ground
      (arith, lookup_last-absent t ps, text_eq_iff t (fingerprint p), text_eq_iff (fingerprint p) t)

Found-cons : (x : Proxy) (xs qs : List Proxy) → Found xs qs → Found (x ∷ xs) qs
unfolding lookup_last
Found-cons x xs [] h = tt
Found-cons x xs (q ∷ qs) h = (rw h.0, Found-cons x xs qs h.1)

Distinct-Found : (ps : List Proxy) → Distinct (fingerprints ps) → Found ps ps
unfolding lookup_last
Distinct-Found [] h = tt
Distinct-Found (p ∷ ps) h = (
  rw (lookup_last-absent (fingerprint p) ps h.0, eq→text_eq (fingerprint p) (fingerprint p) refl),
  Found-cons p ps ps (Distinct-Found ps h.1),
)

-- None of the texts is among the nodes' fingerprints.
Apart : List Text → List Proxy → Type 0
Apart seen = All (λ p. contains_text seen (fingerprint p) ≡ false)

Apart-cons :
    (t : Text) (seen : List Text) (ps : List Proxy)
    → contains_text (fingerprints ps) t ≡ false
    → Apart seen ps
    → Apart (t ∷ seen) ps
unfolding Apart contains_text
Apart-cons t seen [] h k = tt
Apart-cons t seen (p ∷ ps) h k = (
  ground (arith, text_eq_iff t (fingerprint p), text_eq_iff (fingerprint p) t, k.0),
  Apart-cons t seen ps (ground arith) k.1,
)

merge_from-Distinct_id :
    (seen : List Text) (ps : List Proxy)
    → Distinct (fingerprints ps)
    → Apart seen ps
    → merge_from seen ps ≡ ps
unfolding merge_from Apart
merge_from-Distinct_id seen [] h k = refl
merge_from-Distinct_id seen (p ∷ ps) h k = rw k.0 (
    ap (λ l. p ∷ l)
      (merge_from-Distinct_id (fingerprint p ∷ seen) ps h.1
        (Apart-cons (fingerprint p) seen ps h.0 k.1)))

Apart-nil : (ps : List Proxy) → Apart [] ps
unfolding Apart contains_text
Apart-nil [] = tt
Apart-nil (p ∷ ps) = (refl, Apart-nil ps)

survivor_self :
    (all : List Proxy) (p : Proxy)
    → lookup_last (fingerprint p) (by_fingerprint all) ≡ some p
    → survivor all p ≡ p
unfolding survivor measured
survivor_self all p h = rw (h, survivor)

map-survivor_id :
    (all ps : List Proxy)
    → Found all ps
    → (map (survivor all) ps ≡ ps) × (retain (is_new all) ps ≡ [])
unfolding is_new
map-survivor_id all [] h = (refl, refl)
map-survivor_id all (p ∷ ps) h =
    let rest = map-survivor_id all ps h.1 in (cc (survivor_self all p h.0, rest.0), rw h.0 rest.1)

-- Fetching again a list whose nodes have pairwise different fingerprints changes nothing, and has
-- no new node.
incremental_update_same :
    (ps : List Proxy) → Distinct (fingerprints ps) → incremental_update ps ps ≡ (ps, [])
unfolding merge
incremental_update_same ps h =
    let found = map-survivor_id ps ps (Distinct-Found ps h) in
    incremental_update_lem ps ps
    ∙ rw (merge_from-Distinct_id [] ps h (Apart-nil ps), found.0, found.1)
