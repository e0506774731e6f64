-- ===== src/Server/Selection.antt =====
-- How the server chooses the nodes that it exports: `flatten_dedup` (server/src/lib.rs), the region
-- fix of the names (core/src/ops.rs) and the steps of `merge_export` and `build_sub_content`
-- (server/src/handlers/maintenance.rs) up to the serialiser.
pub mod Published
use Prim.Native.Nat.{min}
use sub_hub.Common.{
  ℕ, Bool, true, false, Option, none, some, List, [], ◌∷◌, ◌++◌, map, Text, lit, text_eq,
  contains_text, non_empty, if◌then◌else◌,
}
use sub_hub.Model.Proxy.{Proxy}
use sub_hub.Model.Merge.{merge}
use sub_hub.Model.Region.{Unicode, region}
use sub_hub.Model.Subscription.{Subscription}
use sub_hub.Score.{Arithmetic}
use sub_hub.Ops.Regex.{Result, ok, err, ◌>>=◌, RegexEngine}
use sub_hub.Ops.Transform.{Transform, apply}
use sub_hub.Ops.TopN.{top_n_by_score}
use sub_hub.Export.Names.{export_filter, ensure_unique_names}
use sub_hub.Server.Maintenance.{resolve_top_n}

abbrev pub is_selected : Option (List Text) → Subscription → Bool
is_selected none s = true
is_selected (some only) s = contains_text only s.id

unfoldable pub collected : Option (List Text) → List Subscription → List Proxy
collected only [] = []
collected only (s ∷ ss) =
    let rest = collected only ss in if is_selected only s then s.proxies ++ rest else rest

unfoldable pub flatten_dedup : Option (List Text) → List Subscription → List Proxy
unfolding collected
flatten_dedup only subs = merge (collected only subs)

-- A node whose name tells no region, and whose exit country was measured.
unfoldable pub fix_region : Unicode → Proxy → Proxy
fix_region u p =
    if text_eq (region u p) (lit "OTHER")
    then elim (non_empty p.outbound_country) [
      | none ↦ p
      | some code ↦ record p { name = code ++ 32 ∷ p.name }
    ]
    else p

unfoldable pub region_fixup_for_export : Unicode → List Proxy → Option (List Proxy)
unfolding fix_region
region_fixup_for_export u proxies = ensure_unique_names (map (fix_region u) proxies)

-- `usize::try_from(n).unwrap_or(usize::MAX)` is the identity on 64 bits.
abbrev pub trim_top : Arithmetic → Option ℕ → List Proxy → List Proxy
trim_top a none ps = ps
trim_top a (some n) ps = top_n_by_score a ps n

-- What the two handlers are asked for, and the global Top-N.
pub record Request : Type 0 where
  pub sub_ids : Option (List Text)
  pub transform : Option Transform
  pub top_n : Option ℕ
  pub global_top : ℕ

abbrev pub transformed :
    RegexEngine → Unicode → Arithmetic → Option Transform → List Proxy → Result (List Proxy)
transformed r u a none base = ok base
transformed r u a (some t) base = apply r u a base t

-- The steps from the chosen nodes to the serialiser: region fix, filter, names. No result would
-- mean that a renaming ran out of fuel.
unfoldable pub named : Unicode → List Proxy → Option (List Proxy)
unfolding region_fixup_for_export
named u top = elim (region_fixup_for_export u top) [
  | none ↦ none
  | some fixed ↦ ensure_unique_names (export_filter fixed)
]

-- The nodes in the order and with the names in which `export_str` serialises them.
unfoldable pub published :
    RegexEngine → Unicode → Arithmetic → Request → List Subscription → Result (Option (List Proxy))
unfolding named
published r u a q store = do
  chosen ← transformed r u a q.transform (flatten_dedup q.sub_ids store)
  ok (named u (trim_top a (resolve_top_n q.top_n q.global_top) chosen))
