-- ===== src/Model/Merge/Dedup.antt =====
-- What `merge` keeps.
use mathlib.Core.Path.{◌∙◌, sym}
use sub_hub.Common.{
  ◌≡◌, refl, All, true, false, Option, none, some, List, [], ◌∷◌, map, Text, contains_text, text_eq,
  text_eq_iff, if◌then◌else◌, arith,
}
use sub_hub.Model.Proxy.{Proxy}
use sub_hub.Model.Fingerprint.{fingerprint}
use sub_hub.Model.Merge.{merge_from, merge}

-- The texts are pairwise different.
abbrev pub Distinct : List Text → Type 0
Distinct [] = Unit
Distinct (t ∷ ts) = (contains_text ts t ≡ false) × Distinct ts

abbrev pub fingerprints : List Proxy → List Text
fingerprints = map fingerprint

-- The first node with a fingerprint.
unfoldable pub find : Text → List Proxy → Option Proxy
find t [] = none
find t (p ∷ ps) = if text_eq (fingerprint p) t then some p else find t ps

find-merge_from :
    (t : Text) (seen : List Text) (ps : List Proxy)
    → find t (merge_from seen ps) ≡ (if contains_text seen t then none else find t ps)
unfolding find merge_from contains_text
find-merge_from t seen [] = ground arith
find-merge_from t seen (p ∷ ps) = ground (
  arith,
  find-merge_from t seen ps,
  find-merge_from t (fingerprint p ∷ seen) ps,
  text_eq_iff t (fingerprint p),
  text_eq_iff (fingerprint p) t,
)

-- For every fingerprint, `merge` keeps the first node that has it.
find-merge : (t : Text) (ps : List Proxy) → find t (merge ps) ≡ find t ps
unfolding merge contains_text
find-merge t ps = find-merge_from t [] ps

contains-merge_from :
    (t : Text) (seen : List Text) (ps : List Proxy)
    → contains_text seen t ≡ true
    → contains_text (fingerprints (merge_from seen ps)) t ≡ false
unfolding merge_from contains_text
contains-merge_from t seen [] h = refl
contains-merge_from t seen (p ∷ ps) h = ground (
  arith,
  contains-merge_from t seen ps,
  contains-merge_from t (fingerprint p ∷ seen) ps,
  text_eq_iff t (fingerprint p),
)

merge_from-Distinct :
    (seen : List Text) (ps : List Proxy) → Distinct (fingerprints (merge_from seen ps))
unfolding merge_from contains_text
merge_from-Distinct seen [] = tt
merge_from-Distinct seen (p ∷ ps) = ground (
  arith,
  merge_from-Distinct seen ps,
  merge_from-Distinct (fingerprint p ∷ seen) ps,
  contains-merge_from (fingerprint p) (fingerprint p ∷ seen) ps,
  text_eq_iff (fingerprint p) (fingerprint p),
)

-- The merged nodes have pairwise different fingerprints.
pub merge-Distinct : (ps : List Proxy) → Distinct (fingerprints (merge ps))
unfolding merge
merge-Distinct ps = merge_from-Distinct [] ps

contains-find :
    (p : Proxy) (ps : List Proxy) (t : Text)
    → contains_text (fingerprints ps) t ≡ false
    → find t ps ≡ none
unfolding find contains_text
contains-find p [] t h = refl
contains-find p (q ∷ qs) t h =
    ground
      (arith, contains-find p qs t, text_eq_iff t (fingerprint q), text_eq_iff (fingerprint q) t)

-- Of a list of pairwise different fingerprints every node is found by its own.
All-find :
    (ps all : List Proxy)
    → Distinct (fingerprints ps)
    → ((t : Text) → contains_text (fingerprints ps) t ≡ true → find t all ≡ find t ps)
    → All (λ p. find (fingerprint p) all ≡ some p) ps
unfolding find contains_text
All-find [] all d h = tt
All-find (p ∷ ps) all d h = (
  h (fingerprint p) (ground (arith, text_eq_iff (fingerprint p) (fingerprint p)))
      ∙ ground (arith, text_eq_iff (fingerprint p) (fingerprint p)),
  All-find ps all d.1 (λ t there.
      h t (ground (arith, there)) ∙ ground (arith, there, d.0, text_eq_iff (fingerprint p) t)),
)

-- Merging keeps, for every fingerprint that occurs, exactly one node: the first that has it. The
-- kept nodes have pairwise different fingerprints, each of them is the first of its fingerprint in
-- the given list, and the first of every fingerprint is among them.
pub merge_firsts :
    (ps : List Proxy)
    → Distinct (fingerprints (merge ps))
      × All (λ p. find (fingerprint p) ps ≡ some p) (merge ps)
      × ((t : Text) → find t (merge ps) ≡ find t ps)
merge_firsts ps = (
  merge-Distinct ps,
  All-find (merge ps) ps (merge-Distinct ps) (λ t there. sym (find-merge t ps)),
  λ t. find-merge t ps,
)
