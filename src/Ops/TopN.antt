-- ===== src/Ops/TopN.antt =====
-- `top_n_by_score` (core/src/ops.rs): the best usable nodes, chosen through sorted indices.
pub mod Stable
use sub_hub.Common.{
  ℕ, suc, Bool, true, false, Option, none, some, List, [], ◌∷◌, compare, Ordering, take, get_elem?,
  unwrap_or, if◌then◌else◌,
}
use sub_hub.Common.Float.{F64}
use sub_hub.Common.Sort.{then_with, sort_by}
use sub_hub.Model.Proxy.{Proxy, is_usable}
use sub_hub.Score.{Arithmetic, score_proxy}
use sub_hub.Ops.Transform.{float_order}

-- Higher scores first, then lower indices.
abbrev pub best_first : F64 × ℕ → F64 × ℕ → Ordering
best_first x y = then_with (float_order y.0 x.0) (compare x.1 y.1)

module _ (a : Arithmetic) where
  -- The score and the index of every usable node, the indices counted from the first argument.
  unfoldable pub keyed : ℕ → List Proxy → List (F64 × ℕ)
  keyed i [] = []
  keyed i (p ∷ ps) =
      let rest = keyed (suc i) ps in if is_usable p then (score_proxy a p, i) ∷ rest else rest

-- `map(|(_, i)| proxies[i].clone())`; every index is in range.
unfoldable pub pick : List Proxy → List (F64 × ℕ) → List Proxy
pick all [] = []
pick all ((s, i) ∷ xs) =
    let rest = pick all xs in elim (get_elem? all i) [ none ↦ rest | some p ↦ p ∷ rest ]

unfoldable pub top_n_by_score : Arithmetic → List Proxy → ℕ → List Proxy
unfolding keyed pick
top_n_by_score a proxies n = pick proxies (take n (sort_by best_first (keyed a 0 proxies)))
