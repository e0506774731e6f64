-- ===== src/Common/Lookup.antt =====
-- A `HashMap` keyed by texts that an iterator fills: a later entry replaces an earlier one.
use mathlib.Core.Path.{◌≡◌, sym}
use mathlib.Core.Option.{Option, none, some}
use mathlib.Core.List.{List, [], ◌∷◌, ◌++◌}
use mathlib.Core.Logic.{inl, inr}
use native.Mathlib.Omega.{arith}
use sub_hub.Common.Tests.{if◌then◌else◌, or_else, Option-cases, Bool-cases}
use sub_hub.Common.Lists.{All}
use sub_hub.Common.Strings.{Text, text_eq, text_eq→eq}

module _ {ℓ} {V : Type ℓ} where
  -- `map.get(k)` after `entries.collect::<HashMap<_, _>>()`.
  unfoldable pub lookup_last : Text → List (Text × V) → Option V
  lookup_last k [] = none
  lookup_last k ((j, v) ∷ m) = or_else (lookup_last k m) (if text_eq j k then some v else none)

  pub lookup_last-concat :
      (k j : Text) (v : V) (m : List (Text × V))
      → lookup_last k (m ++ (j, v) ∷ []) ≡ (if text_eq j k then some v else lookup_last k m)
  unfolding lookup_last
  lookup_last-concat k j v [] = ground arith
  lookup_last-concat k j v ((i, w) ∷ m) = ground (arith, lookup_last-concat k j v m)

  -- What is found was entered under the key.
  pub lookup_last-All {κ} :
      (P : Text → V → Type κ) (k : Text) (v : V) (m : List (Text × V))
      → All (λ e. P e.0 e.1) m
      → lookup_last k m ≡ some v
      → P k v
  unfolding lookup_last
  lookup_last-All P k v [] h e = ground (arith, e)
  lookup_last-All P k v ((j, w) ∷ m) h e = elim (Option-cases (lookup_last k m)) [
    | inr (u, later) ↦ lookup_last-All P k v m h.1 (ground (arith, later, e))
    | inl later ↦ elim (Bool-cases (text_eq j k)) [
      | inl same ↦
          let w-v : w ≡ v = ground (arith, later, same, e) in
          rw (sym (text_eq→eq j k same), sym w-v) h.0
      | inr other ↦ ground (arith, later, other, e)
    ]
  ]
