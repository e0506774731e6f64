-- ===== src/Export/Surge/Total.antt =====
-- The renaming of the Surge lines ends, and its names are pairwise different (core/src/export.rs).
use sub_hub.Common.{
  suc, ◌+◌, ◌^◌, ◌<◌, ◌≤◌, ◌≡◌, refl, false, Option, none, some, List, [], ◌∷◌, ◌++◌, Text, lit,
  length, contains_text, join, arith, Option-cases, inl, inr,
}
use sub_hub.Model.Proxy.{Proxy}
use sub_hub.Export.Names.Unique.{claim_name_total}
use sub_hub.Export.Surge.Lines.{surge_line, surge_lines, split_line, unique_lines, to_surge}

-- What the loop makes of the lines, given the names seen before: a line keeps all behind its name, its
-- name is none of those seen before, and it keeps its name if that is free.
unfoldable pub LinesKept : List Text → List Text → List Text → Type 0
LinesKept seen [] [] = Unit
LinesKept seen (l ∷ ls) (m ∷ ms) = elim (split_line l) as (λ _. Type 0) [
  | none ↦ (m ≡ l) × LinesKept seen ls ms
  | some (name, rest) ↦
      (n : Text) × (m ≡ n ++ lit " = " ++ rest)
      × (contains_text seen n ≡ false)
      × (contains_text seen name ≡ false → n ≡ name)
      × LinesKept (n ∷ seen) ls ms
]
LinesKept seen _ _ = ⊥

lines_total :
    (seen ls : List Text)
    → length seen + length ls + 3 < 2 ^ 64
    → (ms : List Text) × (unique_lines seen ls ≡ some ms) × LinesKept seen ls ms
unfolding unique_lines LinesKept
lines_total seen [] small = ([], refl, tt)
lines_total seen (l ∷ ls) small = elim (Option-cases (split_line l)) [
  | inl e ↦
      let (ms, f, kept) = lines_total seen ls (omega arith) in
      (l ∷ ms, rw (e, f, unique_lines) refl, rw (e, LinesKept) (refl, kept))
  | inr ((name, rest), e) ↦
      let (n, f, fresh, same) = claim_name_total seen name (omega arith) in
      let (ms, g, kept) = lines_total (n ∷ seen) ls (omega arith) in
      (
        (n ++ lit " = " ++ rest) ∷ ms,
        rw (e, f, g, unique_lines) refl,
        rw (e, LinesKept) (n, refl, fresh, same, kept),
      )
]

length-surge_lines : (ps : List Proxy) → length (surge_lines ps) ≤ length ps
unfolding surge_lines
length-surge_lines [] = omega arith
length-surge_lines (p ∷ ps) = go (surge_line p) (length-surge_lines ps)
  where
    go :
        (o : Option Text)
        → length (surge_lines ps) ≤ length ps
        → length
            (elim o as (λ _. List Text) [ none ↦ surge_lines ps | some l ↦ l ∷ surge_lines ps ])
          ≤ suc (length ps)
    go none h = omega (arith, h)
    go (some l) h = omega (arith, h)

-- For fewer than 2 ^ 31 - 3 nodes the renaming of the Surge lines ends, so that the suffix stays within an
-- `i32`; a line without a name stays as it is, and every other line keeps what stands behind its name, has a
-- name that no line before it has, and keeps its name if that is free.
pub to_surge_total :
    (ps : List Proxy)
    → length ps + 3 < 2 ^ 31
    → (ms : List Text) × (to_surge ps ≡ some (join 10 ms)) × LinesKept [] (surge_lines ps) ms
unfolding to_surge
to_surge_total ps small =
    let (ms, e, kept) = lines_total [] (surge_lines ps) (omega (arith, length-surge_lines ps)) in
    (ms, rw e refl, kept)
