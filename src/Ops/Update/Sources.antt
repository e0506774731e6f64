-- ===== src/Ops/Update/Sources.antt =====
-- `merge_subscriptions_by_source`: no source is stored twice, failed fetches keep their nodes.
use mathlib.Core.Path.{sym, ◌∙◌}
use mathlib.Core.List.{map-append, append_assoc, append-nil}
use sub_hub.Common.{
  ◌+◌, ◌≡◌, refl, true, false, ◌||◌, none, some, List, [], ◌∷◌, ◌++◌, map, Text, length,
  contains_text, text_eq, text_eq_iff, if◌then◌else◌, Option-cases, arith, inl, inr,
}
use sub_hub.Model.Proxy.{Proxy}
use sub_hub.Model.Subscription.{Subscription}
use sub_hub.Model.Merge.Dedup.{Distinct}
use sub_hub.Ops.Update.{
  Merged, refresh_with, update_first, merge_source, merge_sources, merge_subscriptions_by_source,
}

abbrev sources : List Subscription → List Text
sources = map (λ s. s.source)

source-refresh_with : (e sub : Subscription) → (refresh_with e sub).0.source ≡ e.source
unfolding refresh_with
source-refresh_with e sub = refl

-- An update in place leaves the sources as they are, and its source is among them.
sources-update_first :
    (sub : Subscription) (es es' : List Subscription) (fresh : List Proxy)
    → update_first sub es ≡ some (es', fresh)
    → (sources es' ≡ sources es) × (contains_text (sources es) sub.source ≡ true)
unfolding update_first contains_text
sources-update_first sub [] es' fresh e = cc
sources-update_first sub (x ∷ es) es' fresh e = elim (Option-cases (update_first sub es)) [
  | inl r ↦ ground (
    arith,
    source-refresh_with x sub,
    text_eq_iff x.source sub.source,
    text_eq_iff sub.source x.source,
  )
  | inr ((a, f), r) ↦ ground (
    arith,
    source-refresh_with x sub,
    text_eq_iff x.source sub.source,
    text_eq_iff sub.source x.source,
    sources-update_first sub es a f r,
  )
]

update_first-none :
    (sub : Subscription) (es : List Subscription)
    → update_first sub es ≡ none
    → contains_text (sources es) sub.source ≡ false
unfolding update_first contains_text
update_first-none sub [] e = refl
update_first-none sub (x ∷ es) e = ground (
  arith,
  update_first-none sub es,
  text_eq_iff x.source sub.source,
  text_eq_iff sub.source x.source,
)

contains-concat :
    (ts : List Text) (t u : Text)
    → contains_text (ts ++ t ∷ []) u ≡ (contains_text ts u || text_eq u t)
unfolding contains_text
contains-concat [] t u = ground arith
contains-concat (s ∷ ts) t u = ground (arith, contains-concat ts t u)

Distinct-concat :
    (ts : List Text) (t : Text) → Distinct ts → contains_text ts t ≡ false → Distinct (ts ++ t ∷ [])
unfolding contains_text
Distinct-concat [] t h k = (refl, tt)
Distinct-concat (u ∷ ts) t h k = (
  ground (arith, contains-concat ts t u, text_eq_iff t u, text_eq_iff u t, h.0),
  Distinct-concat ts t h.1 (ground arith),
)

sources-concat :
    (es : List Subscription) (sub : Subscription)
    → sources (es ++ sub ∷ []) ≡ sources es ++ sub.source ∷ []
sources-concat es sub = map-append (λ s. s.source) es (sub ∷ [])

-- The invariant of the store.
abbrev UniqueSources : Merged → Type 0
UniqueSources m = Distinct (sources m.existing)

merge_source-UniqueSources :
    (m : Merged) (sub : Subscription) → UniqueSources m → UniqueSources (merge_source m sub)
unfolding merge_source
merge_source-UniqueSources m sub h = elim (Option-cases (update_first sub m.existing)) [
  | inl e ↦
      rw (e, merge_source)
        (rw (sources-concat m.existing sub)
          (Distinct-concat (sources m.existing) sub.source h (update_first-none sub m.existing e)))
  | inr ((es, fresh), e) ↦
      rw (e, merge_source) (rw ((sources-update_first sub m.existing es fresh e).0) h)
]

merge_sources-UniqueSources :
    (m : Merged) (subs : List Subscription) → UniqueSources m → UniqueSources (merge_sources m subs)
unfolding merge_sources
merge_sources-UniqueSources m [] h = h
merge_sources-UniqueSources m (sub ∷ subs) h =
    merge_sources-UniqueSources (merge_source m sub) subs (merge_source-UniqueSources m sub h)

-- If no two stored subscriptions have one source, then none have after the merge, whatever comes in,
-- repeated sources included.
merge_subscriptions_by_source_unique :
    (existing incoming : List Subscription)
    → Distinct (sources existing)
    → Distinct (sources (merge_subscriptions_by_source existing incoming).existing)
unfolding merge_subscriptions_by_source
merge_subscriptions_by_source_unique existing incoming h = merge_sources-UniqueSources _ incoming h

-- The sources that are not known yet, each where it comes first.
unknown_sources : List Text → List Text → List Text
unknown_sources known [] = []
unknown_sources known (t ∷ ts) =
    if contains_text known t
    then unknown_sources known ts
    else t ∷ unknown_sources (known ++ t ∷ []) ts

merge_sources-order :
    (m : Merged) (subs : List Subscription)
    → (sources (merge_sources m subs).existing
        ≡ sources m.existing ++ unknown_sources (sources m.existing) (sources subs))
      × ((merge_sources m subs).created
          ≡ m.created + length (unknown_sources (sources m.existing) (sources subs)))
unfolding merge_sources unknown_sources merge_source
merge_sources-order m [] = (sym (append-nil (sources m.existing)), omega arith)
merge_sources-order m (sub ∷ subs) =
    let rest = merge_sources-order (merge_source m sub) subs in
    elim (Option-cases (update_first sub m.existing)) [
      | inl e ↦
          let absent = update_first-none sub m.existing e in
          let grown : sources (merge_source m sub).existing
              ≡ sources m.existing ++ sub.source ∷ [] =
            rw (e, merge_source) (sources-concat m.existing sub) in
          let count : (merge_source m sub).created ≡ m.created + 1 = rw (e, merge_source) in
          let rest' = rw grown at rest in
          (
            rw absent (rest'.0 ∙ append_assoc (sources m.existing) (sub.source ∷ []) _),
            rw absent (omega (arith, rest'.1, count)),
          )
      | inr ((es, fresh), e) ↦
          let (same, present) = sources-update_first sub m.existing es fresh e in
          let kept : sources (merge_source m sub).existing ≡ sources m.existing =
            rw (e, merge_source) same in
          let count : (merge_source m sub).created ≡ m.created = rw (e, merge_source) in
          let rest' = rw kept at rest in
          (rw present rest'.0, rw present (omega (arith, rest'.1, count)))
    ]

-- After the merge the store has its subscriptions in the order in which they were, then one for each
-- source that was not stored, in the order in which these came first; the count of created
-- subscriptions is theirs.
merge_subscriptions_by_source-order :
    (existing incoming : List Subscription)
    → (sources (merge_subscriptions_by_source existing incoming).existing
        ≡ sources existing ++ unknown_sources (sources existing) (sources incoming))
      × ((merge_subscriptions_by_source existing incoming).created
          ≡ length (unknown_sources (sources existing) (sources incoming)))
unfolding merge_subscriptions_by_source
merge_subscriptions_by_source-order existing incoming =
    let (order, count) =
      merge_sources-order
        (record { existing = existing; created = 0; added_proxies = 0; new_nodes = [] }) incoming in
    (order, omega (arith, count))
