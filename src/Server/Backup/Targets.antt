-- ===== src/Server/Backup/Targets.antt =====
-- Which subscription an exported entry finds in a store of the same ids, uids and sources.
use mathlib.Core.Option.{some_inj}
use mathlib.Core.Path.{ap, ◌∙◌}
use sub_hub.Common.{
  ℕ, zero, suc, ◌+◌, ◌≡◌, refl, sym, Bool, true, false, not, ◌&&◌, ◌⊎◌, some, List, [], ◌∷◌, Text,
  map, lit, get_elem?, All, is_empty, trim, text_eq, text_eq→eq, eq→text_eq, arith, Option-cases,
  Bool-cases, inl, inr,
}
use sub_hub.Common.Lookup.{lookup_last, lookup_last-All}
use sub_hub.Model.Subscription.{Subscription}
use sub_hub.Server.Backup.{
  export_item, by_url_from, position, target, is_remote, set_at, pasted_uid,
}

-- The id, the uid and the source.
abbrev pub Key : Type 0
Key = Text × Text × Text

abbrev pub key : Subscription → Key
key s = (s.id, s.uid, s.source)

-- A subscription with a uid, that is of a URL or pasted.
abbrev pub IsRestorable : Key → Type 0
IsRestorable (id, uid, source) =
    (is_empty (trim uid) ≡ false)
    × (is_empty (trim source) ≡ false)
    × ((is_remote source ≡ true) ⊎ (source ≡ lit "pasted"))

module _ {A B : Type 0} (f : A → B) where
  pub get_elem?-map :
      (xs : List A) (i : ℕ) (x : A) → get_elem? xs i ≡ some x → get_elem? (map f xs) i ≡ some (f x)
  get_elem?-map [] i x e = ground (arith, e)
  get_elem?-map (y ∷ xs) zero x e = ground (arith, e)
  get_elem?-map (y ∷ xs) (suc i) x e = get_elem?-map xs i x e

  pub get_elem?-unmap :
      (xs : List A) (i : ℕ) (y : B)
      → get_elem? (map f xs) i ≡ some y
      → (x : A) × (get_elem? xs i ≡ some x) × (f x ≡ y)
  get_elem?-unmap [] i y e = absurd (ground (arith, e))
  get_elem?-unmap (x ∷ xs) zero y e = (x, refl, ground (arith, e))
  get_elem?-unmap (x ∷ xs) (suc i) y e = get_elem?-unmap xs i y e

  pub map-set_at :
      (xs : List A) (i : ℕ) (x y : A)
      → get_elem? xs i ≡ some x
      → f y ≡ f x
      → map f (set_at i y xs) ≡ map f xs
  map-set_at [] i x y e h = refl
  map-set_at (z ∷ xs) zero x y e h = let same : z ≡ x = ground (arith, e) in cc (h, same)
  map-set_at (z ∷ xs) (suc i) x y e h = ap (λ l. f z ∷ l) (map-set_at xs i x y e h)

module _ {A : Type 0} (f : A → Bool) where
  position-found :
      (xs : List A) (o i : ℕ)
      → position f o xs ≡ some i
      → (j : ℕ) × (x : A) × (o + j ≡ i) × (get_elem? xs j ≡ some x) × (f x ≡ true)
  unfolding position
  position-found [] o i e = absurd (ground (arith, e))
  position-found (x ∷ xs) o i e = elim (Bool-cases (f x)) [
    | inl h ↦ let same : o ≡ i = ground (arith, e, h) in (0, x, omega (arith, same), refl, h)
    | inr h ↦
        let (j, y, n, at, holds) = position-found xs (suc o) i (ground (arith, e, h)) in
        (suc j, y, omega (arith, n), at, holds)
  ]

  position-finds :
      (xs : List A) (o j : ℕ) (x : A)
      → get_elem? xs j ≡ some x
      → f x ≡ true
      → (i : ℕ) × (position f o xs ≡ some i)
  unfolding position
  position-finds [] o j x e h = absurd (ground (arith, e))
  position-finds (y ∷ xs) o zero x e h =
      let here : f y ≡ true = ap f (some_inj.0 e) ∙ h in (o, rw here refl)
  position-finds (y ∷ xs) o (suc j) x e h = elim (Bool-cases (f y)) [
    | inl here ↦ (o, rw here refl)
    | inr other ↦ let (i, later) = position-finds xs (suc o) j x e h in (i, rw other later)
  ]

-- A subscription of the source stands at the index.
abbrev Hits : List Subscription → Text → ℕ → Type 0
Hits store source i = (s : Subscription) × (get_elem? store i ≡ some s) × (s.source ≡ source)

-- The rest of the store, from the index.
abbrev Rest : List Subscription → ℕ → List Subscription → Type 0
Rest store i ss = (j n : ℕ) → i + j ≡ n → get_elem? ss j ≡ get_elem? store n

by_url_from-Hits :
    (store ss : List Subscription) (i : ℕ)
    → Rest store i ss
    → All (λ e. Hits store e.0 e.1) (by_url_from i ss)
unfolding by_url_from
by_url_from-Hits store [] i h = tt
by_url_from-Hits store (s ∷ ss) i h =
    let rest = by_url_from-Hits store ss (suc i) (λ j n e. h (suc j) n (omega (arith, e))) in
    elim (Bool-cases (is_remote s.source && not (is_empty (trim s.source)))) [
      | inl e ↦ rw e ((s, sym (h 0 i (omega arith)), refl), rest)
      | inr e ↦ rw e rest
    ]

lookup_last-first :
    (k : Text) (v : ℕ) (m : List (Text × ℕ)) → (i : ℕ) × (lookup_last k ((k, v) ∷ m) ≡ some i)
unfolding lookup_last
lookup_last-first k v m = elim (Option-cases (lookup_last k m)) [
  | inl e ↦ (v, rw (e, eq→text_eq k k refl) refl)
  | inr (i, e) ↦ (i, rw e refl)
]

lookup_last-later :
    (k j : Text) (v i : ℕ) (m : List (Text × ℕ))
    → lookup_last k m ≡ some i
    → lookup_last k ((j, v) ∷ m) ≡ some i
unfolding lookup_last
lookup_last-later k j v i m e = rw e refl

abbrev enters : Subscription → Bool
enters s = is_remote s.source && not (is_empty (trim s.source))

by_url_from-finds :
    (ss : List Subscription) (i j : ℕ) (s : Subscription)
    → get_elem? ss j ≡ some s
    → enters s ≡ true
    → (k : ℕ) × (lookup_last s.source (by_url_from i ss) ≡ some k)
unfolding by_url_from
by_url_from-finds [] i j s e h = absurd (ground (arith, e))
by_url_from-finds (t ∷ ss) i zero s e h =
    let t-s : t ≡ s = some_inj.0 e in
    let here : enters t ≡ true = ap enters t-s ∙ h in
    let (k, found) = lookup_last-first t.source i (by_url_from (suc i) ss) in
    (k, rw (sym (ap (λ u. u.source) t-s), here) found)
by_url_from-finds (t ∷ ss) i (suc j) s e h =
    let (k, later) = by_url_from-finds ss (suc i) j s e h in
    elim (Bool-cases (enters t)) [
      | inl e ↦ (k, rw e (lookup_last-later s.source t.source i k (by_url_from (suc i) ss) later))
      | inr e ↦ (k, rw e later)
    ]

pasted_uid-source :
    (uid : Text) (s : Subscription) → pasted_uid uid s ≡ true → s.source ≡ lit "pasted"
pasted_uid-source uid s h = elim (Bool-cases (text_eq s.source (lit "pasted"))) [
  | inl e ↦ text_eq→eq s.source (lit "pasted") e
  | inr e ↦ absurd (ground (arith, e, h))
]

pasted_uid-key :
    (s t : Subscription) → key t ≡ key s → s.source ≡ lit "pasted" → pasted_uid s.uid t ≡ true
pasted_uid-key s t e h =
    rw
      (
        eq→text_eq t.source (lit "pasted") (ap (λ k. k.2) e ∙ h),
        eq→text_eq t.uid s.uid (ap (λ k. k.1) e),
      )
      refl

not-nonblank : (t : Text) → is_empty (trim t) ≡ false → not (is_empty (trim t)) ≡ true
not-nonblank t h = rw h refl

not-remote :
    (s : Subscription) → is_remote s.source ≡ false → IsRestorable (key s) → s.source ≡ lit "pasted"
not-remote s r (uid, source, inl e) = absurd (ground (arith, r, e))
not-remote s r (uid, source, inr e) = e

-- The entry of a subscription of the store finds one of its source, which has a uid too.
pub target-export_item :
    (store guard : List Subscription) (j : ℕ) (s : Subscription)
    → map key guard ≡ map key store
    → get_elem? store j ≡ some s
    → IsRestorable (key s)
    → (i : ℕ) × (old : Subscription) × (target (by_url_from 0 store) guard (export_item s) ≡ some i)
      × (get_elem? guard i ≡ some old)
      × (old.source ≡ s.source)
unfolding target export_item
target-export_item store guard j s same e h = elim (Bool-cases (is_remote s.source)) [
  | inl r ↦
      let (i, found) = by_url_from-finds store 0 j s e (rw (r, h.1) refl) in
      let hits =
        by_url_from-Hits store store 0 (λ j n o. ap (get_elem? store) (omega (arith, o))) in
      let (t, at, t-s) = lookup_last-All (Hits store) s.source i (by_url_from 0 store) hits found in
      let (old, here, old-t) =
        get_elem?-unmap key guard i (key t)
          (ap (λ l. get_elem? l i) same ∙ get_elem?-map key store i t at) in
      (i, old, rw (r, target) found, here, ap (λ k. k.2) old-t ∙ t-s)
  | inr r ↦
      let pasted = not-remote s r h in
      let (t, at, t-s) =
        get_elem?-unmap key guard j (key s)
          (ap (λ l. get_elem? l j) same ∙ get_elem?-map key store j s e) in
      let (i, found) =
        position-finds (pasted_uid s.uid) guard 0 j t at (pasted_uid-key s t t-s pasted) in
      let (k, old, k-i, here, holds) = position-found (pasted_uid s.uid) guard 0 i found in
      (
        i,
        old,
        rw (r, target, not-nonblank s.uid h.0) found,
        ap (get_elem? guard) (omega (arith, k-i)) ∙ here,
        pasted_uid-source s.uid old holds ∙ sym pasted,
      )
]
