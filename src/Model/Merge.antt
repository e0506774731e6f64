-- ===== src/Model/Merge.antt =====
-- `merge_refs` and `merge` (core/src/model.rs): the first node of each fingerprint, in order.
pub mod Dedup
use sub_hub.Common.{
  Bool, true, false, ◌||◌, Option, none, some, List, [], ◌∷◌, Text, contains_text, text_eq,
  if◌then◌else◌,
}
use sub_hub.Model.Proxy.{Proxy}
use sub_hub.Model.Fingerprint.{fingerprint}

-- The loop; `seen` holds the fingerprints that `insert` has met.
unfoldable pub merge_from : List Text → List Proxy → List Proxy
unfolding contains_text
merge_from seen [] = []
merge_from seen (p ∷ ps) =
    let fp = fingerprint p in
    let rest = merge_from (fp ∷ seen) ps in
    let same = merge_from seen ps in if contains_text seen fp then same else p ∷ rest

unfoldable pub merge : List Proxy → List Proxy
unfolding merge_from
merge = merge_from []
