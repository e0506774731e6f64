-- ===== src/Export/Names/Unique.antt =====
-- `ensure_unique_names` ends, and its names are pairwise different.
use mathlib.Core.Path.{◌∙◌, sym, subst}
use native.Mathlib.Decide.{ℕ_discrete}
use sub_hub.Common.{
  ℕ, zero, suc, ◌+◌, ◌≤◌, ◌<◌, ◌^◌, ◌≡◌, ◌≢◌, refl, true, false, none, some, List, [], ◌∷◌, ◌++◌,
  map, Text, lit, length, contains_text, text_eq, text_eq_iff, eq→text_eq, text_eq→eq,
  if◌then◌else◌, Bool-cases, Option-cases, inl, inr, arith,
}
use sub_hub.Common.Decimal.{decimal-injective}
use sub_hub.Model.Proxy.{Proxy}
use sub_hub.Model.Merge.Dedup.{Distinct}
use sub_hub.Export.Names.{candidate, free_name, claim_name, unique_from, ensure_unique_names}

append_left-cancel : (s t u : Text) → s ++ t ≡ s ++ u → t ≡ u
append_left-cancel [] t u e = e
append_left-cancel (c ∷ s) t u e = append_left-cancel s t u (cc)

candidate-injective :
    (base : Text) (i j : ℕ) → i < 2 ^ 64 → j < 2 ^ 64 → candidate base i ≡ candidate base j → i ≡ j
unfolding candidate
candidate-injective base i j hi hj e =
    decimal-injective i j hi hj (append_left-cancel (base ++ lit " #") _ _ e)

candidate-ne :
    (base : Text) (i j : ℕ)
    → i < 2 ^ 64
    → j < 2 ^ 64
    → i ≢ j
    → text_eq (candidate base j) (candidate base i) ≡ false
candidate-ne base i j hi hj n = elim (Bool-cases (text_eq (candidate base j) (candidate base i))) [
  | inl e ↦ absurd (n (sym (candidate-injective base j i hj hi (text_eq→eq _ _ e))))
  | inr e ↦ e
]

-- The texts without one of them.
drop_text : Text → List Text → List Text
drop_text t [] = []
drop_text t (u ∷ us) = if text_eq t u then us else u ∷ drop_text t us

length-drop_text :
    (t : Text) (us : List Text)
    → contains_text us t ≡ true
    → suc (length (drop_text t us)) ≡ length us
unfolding drop_text contains_text
length-drop_text t [] h = cc
length-drop_text t (u ∷ us) h = ground (arith, length-drop_text t us)

contains-drop_text :
    (t v : Text) (us : List Text)
    → text_eq v t ≡ false
    → contains_text us v ≡ true
    → contains_text (drop_text t us) v ≡ true
unfolding drop_text contains_text
contains-drop_text t v [] n h = cc
contains-drop_text t v (u ∷ us) n h =
    ground (arith, contains-drop_text t v us, text_eq_iff t u, text_eq_iff v u, text_eq_iff v t)

-- If all candidates from `i` on, as many as the fuel, are used, the used names are as many at least.
all_used :
    (f : ℕ) (used : List Text) (base : Text) (i : ℕ)
    → i + f < 2 ^ 64
    → ((j : ℕ) → i ≤ j → j < i + f → contains_text used (candidate base j) ≡ true)
    → f ≤ length used
all_used zero used base i h k = omega arith
all_used (suc f) used base i h k =
    let first = k i (omega arith) (omega arith) in
    let rest =
      all_used f (drop_text (candidate base i) used) base (i + 1) (omega arith) (λ j low high.
        contains-drop_text (candidate base i) (candidate base j) used
          (candidate-ne base i j (omega arith) (omega arith) (omega arith))
          (k j (omega arith) (omega arith))) in
    omega (arith, length-drop_text (candidate base i) used first)

free_name-step :
    (f : ℕ) (used : List Text) (base : Text) (i : ℕ)
    → contains_text used (candidate base i) ≡ true
    → free_name (suc f) used base i ≡ free_name f used base (i + 1)
unfolding free_name
free_name-step f used base i h = rw h

first_free :
    (f : ℕ) (used : List Text) (base : Text) (i : ℕ)
    → contains_text used (candidate base i) ≡ false
    → free_name (suc f) used base i ≢ none
unfolding free_name
first_free f used base i h e = ground arith

free_name-none :
    (f : ℕ) (used : List Text) (base : Text) (i : ℕ)
    → free_name f used base i ≡ none
    → (j : ℕ) → i ≤ j
    → j < i + f
    → contains_text used (candidate base j) ≡ true
free_name-none zero used base i e j hi hj = absurd (omega arith)
free_name-none (suc f) used base i e j hi hj =
    elim (Bool-cases (contains_text used (candidate base i))) [
      | inl h ↦ elim (ℕ_discrete i j) [
        | yes q ↦ subst (λ m. contains_text used (candidate base m) ≡ true) q h
        | no n ↦
            free_name-none f used base (i + 1) (sym (free_name-step f used base i h) ∙ e) j
              (omega arith) (omega arith)
      ]
      | inr h ↦ absurd (first_free f used base i h e)
    ]

free_name-free :
    (f : ℕ) (used : List Text) (base : Text) (i : ℕ) (n : Text)
    → free_name f used base i ≡ some n
    → contains_text used n ≡ false
unfolding free_name
free_name-free zero used base i n e = cc
free_name-free (suc f) used base i n e = ground (arith, free_name-free f used base (i + 1) n)

-- With one round more than there are used names, a free one is found.
free_name_total :
    (used : List Text) (base : Text)
    → length used + 3 < 2 ^ 64
    → (n : Text) × (free_name (suc (length used)) used base 2 ≡ some n)
free_name_total used base small = elim (Option-cases (free_name (suc (length used)) used base 2)) [
  | inl e ↦ absurd (
      let enough =
        all_used (suc (length used)) used base 2 (omega arith)
          (free_name-none (suc (length used)) used base 2 e) in
      omega arith)
  | inr found ↦ found
]

pub claim_name_total :
    (used : List Text) (name : Text)
    → length used + 3 < 2 ^ 64
    → (n : Text) × (claim_name used name ≡ some n)
      × (contains_text used n ≡ false)
      × (contains_text used name ≡ false → n ≡ name)
unfolding claim_name
claim_name_total used name small = elim (Bool-cases (contains_text used name)) [
  | inl h ↦
      let (n, e) = free_name_total used name small in
      (
        n,
        rw h e,
        free_name-free (suc (length used)) used name 2 n e,
        λ no_use. absurd (ground arith),
      )
  | inr h ↦ (name, rw h, h, λ _. refl)
]

-- What the loop over the nodes makes of them, given the names used before: every node keeps all
-- but its name, its name is none of those used before, and it keeps its name if that is free.
abbrev pub Renamed : List Text → List Proxy → List Proxy → Type 0
Renamed used [] [] = Unit
Renamed used (p ∷ ps) (q ∷ qs) =
    (q ≡ record p { name = q.name })
    × (contains_text used q.name ≡ false)
    × (contains_text used p.name ≡ false → q.name ≡ p.name)
    × Renamed (q.name ∷ used) ps qs
Renamed used _ _ = ⊥

unique_from_total :
    (used : List Text) (ps : List Proxy)
    → length used + length ps + 3 < 2 ^ 64
    → (qs : List Proxy) × (unique_from used ps ≡ some qs) × Renamed used ps qs
unfolding unique_from
unique_from_total used [] small = ([], refl, tt)
unique_from_total used (p ∷ ps) small =
    let (n, e, fresh, kept) = claim_name_total used p.name (omega arith) in
    let (qs, e', rest) = unique_from_total (n ∷ used) ps (omega arith) in
    (
      record p { name = n } ∷ qs,
      rw (e, unique_from) (rw (e', unique_from)),
      (refl, fresh, kept, rest),
    )

abbrev pub names : List Proxy → List Text
names = map (λ p. p.name)

Renamed-fresh :
    (t : Text) (used : List Text) (ps qs : List Proxy)
    → Renamed used ps qs
    → contains_text used t ≡ true
    → contains_text (names qs) t ≡ false
unfolding contains_text
Renamed-fresh t used [] [] h k = refl
Renamed-fresh t used [] (q ∷ qs) h k = absurd h
Renamed-fresh t used (p ∷ ps) [] h k = absurd h
Renamed-fresh t used (p ∷ ps) (q ∷ qs) h k =
    ground (arith, Renamed-fresh t (q.name ∷ used) ps qs h.3, text_eq_iff t q.name, h.1)

Renamed-Distinct :
    (used : List Text) (ps qs : List Proxy) → Renamed used ps qs → Distinct (names qs)
unfolding contains_text
Renamed-Distinct used [] [] h = tt
Renamed-Distinct used [] (q ∷ qs) h = absurd h
Renamed-Distinct used (p ∷ ps) [] h = absurd h
Renamed-Distinct used (p ∷ ps) (q ∷ qs) h = (
  Renamed-fresh q.name (q.name ∷ used) ps qs h.3 (ground (arith, eq→text_eq q.name q.name refl)),
  Renamed-Distinct (q.name ∷ used) ps qs h.3,
)

-- For fewer than 2 ^ 31 - 3 nodes the renaming ends: its loops find a free name within as many
-- rounds as names are used, so that the suffix stays within an `i32`. The names of the result are
-- pairwise different, each node keeps everything but its name, and it keeps its name if no node
-- before it has it in the result.
pub ensure_unique_names_total :
    (ps : List Proxy)
    → length ps + 3 < 2 ^ 31
    → (qs : List Proxy) × (ensure_unique_names ps ≡ some qs)
      × Distinct (names qs)
      × Renamed [] ps qs
unfolding ensure_unique_names
ensure_unique_names_total ps small =
    let (qs, e, r) = unique_from_total [] ps (omega arith) in
    (qs, e, Renamed-Distinct [] ps qs r, r)
