-- ===== src/Export/Names.antt =====
-- `export_filter` and `ensure_unique_names` (core/src/export.rs).
pub mod Unique
use sub_hub.Common.{
  ℕ, zero, suc, ◌+◌, Bool, true, false, Option, none, some, List, [], ◌∷◌, ◌++◌, map, Text, lit,
  length, contains_text, retain, if◌then◌else◌,
}
use sub_hub.Common.Decimal.{decimal}
use sub_hub.Model.Proxy.{Proxy, is_usable}

unfoldable pub export_filter : List Proxy → List Proxy
export_filter = retain is_usable

-- `format!("{base} #{i}")`.
unfoldable pub candidate : Text → ℕ → Text
candidate base i = base ++ lit " #" ++ decimal i

-- The inner `loop`: the first candidate from `i` on that is not used. The fuel bounds the rounds.
unfoldable pub free_name : ℕ → List Text → Text → ℕ → Option Text
unfolding candidate
free_name zero used base i = none
free_name (suc f) used base i =
    let next = free_name f used base (i + 1) in
    if contains_text used (candidate base i) then next else some (candidate base i)

-- The name that the loop gives to a node: its own, or the first free candidate from 2 on.
unfoldable pub claim_name : List Text → Text → Option Text
unfolding free_name
claim_name used name =
    let free = free_name (suc (length used)) used name 2 in
    if contains_text used name then free else some name

unfoldable pub unique_from : List Text → List Proxy → Option (List Proxy)
unfolding claim_name
unique_from used [] = some []
unique_from used (p ∷ ps) = elim (claim_name used p.name) [
  | none ↦ none
  | some n ↦ elim (unique_from (n ∷ used) ps) [
    | none ↦ none
    | some qs ↦ some (record p { name = n } ∷ qs)
  ]
]

-- `used` starts empty; no result would mean that the fuel of a round ran out.
unfoldable pub ensure_unique_names : List Proxy → Option (List Proxy)
unfolding unique_from
ensure_unique_names = unique_from []
