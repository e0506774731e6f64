-- ===== src/Ops/TopN/Stable.antt =====
-- Top-N through indices is the stable sort of the usable nodes by score.
use mathlib.Core.Path.{ap, ◌∙◌, subst}
use mathlib.Core.List.{Perm, append_assoc}
use sub_hub.Common.{
  ℕ, zero, suc, ◌<◌, ◌≡◌, refl, false, some, List, [], ◌∷◌, ◌++◌, Ordering, take, drop, get_elem?,
  get_elem?-length, length, length-append, All, All-retain, retain, Bool-cases, inl, inr, arith,
  take-append-drop,
}
use sub_hub.Common.Float.{F64, is_nan, partial_cmp}
use sub_hub.Common.Sort.{
  sort_by, insert_by, is_gt, All-sort_by, IsOrderOn, sort_by-Sorted, sort_by-perm, Sorted,
  length-sort_by,
}
use sub_hub.Model.Proxy.{Proxy, is_usable}
use sub_hub.Score.{Arithmetic, score_proxy}
use sub_hub.Ops.Transform.{float_order}
use sub_hub.Ops.TopN.{best_first, keyed, pick, top_n_by_score}

length-concat : (pre : List Proxy) (p : Proxy) → length (pre ++ p ∷ []) ≡ suc (length pre)
length-concat pre p = omega (arith, length-append pre (p ∷ []))

module _ (a : Arithmetic) where
  -- Higher scores first.
  unfoldable pub by_score : Proxy → Proxy → Ordering
  by_score p q = float_order (score_proxy a q) (score_proxy a p)

  module _ (all : List Proxy) where
    -- The entries stand for the nodes, one for one.
    Stands : List (F64 × ℕ) → List Proxy → Type 0
    Stands [] [] = Unit
    Stands (e ∷ es) (p ∷ ps) = (e.0 ≡ score_proxy a p) × (get_elem? all e.1 ≡ some p) × Stands es ps
    Stands _ _ = ⊥

    pick-Stands : (es : List (F64 × ℕ)) (ps : List Proxy) → Stands es ps → pick all es ≡ ps
    unfolding Stands pick
    pick-Stands [] [] h = refl
    pick-Stands [] (p ∷ ps) h = absurd h
    pick-Stands (e ∷ es) [] h = absurd h
    pick-Stands (e ∷ es) (p ∷ ps) h = rw (h.1, pick) (ap (λ l. p ∷ l) (pick-Stands es ps h.2))

    take-Stands :
        (n : ℕ) (es : List (F64 × ℕ)) (ps : List Proxy)
        → Stands es ps
        → Stands (take n es) (take n ps)
    unfolding Stands
    take-Stands zero es ps h = tt
    take-Stands (suc n) [] [] h = tt
    take-Stands (suc n) [] (p ∷ ps) h = absurd h
    take-Stands (suc n) (e ∷ es) [] h = absurd h
    take-Stands (suc n) (e ∷ es) (p ∷ ps) h = (h.0, h.1, take-Stands n es ps h.2)

    same_order :
        (e f : F64 × ℕ) (p q : Proxy)
        → e.0 ≡ score_proxy a p
        → f.0 ≡ score_proxy a q
        → e.1 < f.1
        → is_gt (best_first e f) ≡ is_gt (by_score p q)
    unfolding by_score
    same_order e f p q s t l = rw (s, t) (ground arith)

    insert_by-Stands :
        (e : F64 × ℕ) (p : Proxy) (es : List (F64 × ℕ)) (ps : List Proxy)
        → e.0 ≡ score_proxy a p
        → get_elem? all e.1 ≡ some p
        → All (λ f. e.1 < f.1) es
        → Stands es ps
        → Stands (insert_by best_first e es) (insert_by by_score p ps)
    unfolding Stands insert_by
    insert_by-Stands e p [] [] s g l h = (s, g, tt)
    insert_by-Stands e p [] (q ∷ ps) s g l h = absurd h
    insert_by-Stands e p (f ∷ es) [] s g l h = absurd h
    insert_by-Stands e p (f ∷ es) (q ∷ ps) s g l h = elim (Bool-cases (is_gt (by_score p q))) [
      | inl gt ↦
          rw (gt, same_order e f p q s h.0 l.0 ∙ gt)
            (h.0, h.1, insert_by-Stands e p es ps s g l.1 h.2)
      | inr le ↦ rw (le, same_order e f p q s h.0 l.0 ∙ le) (s, g, h)
    ]

    keyed-later : (i j : ℕ) (ps : List Proxy) → i < j → All (λ f. i < f.1) (keyed a j ps)
    unfolding keyed
    keyed-later i j [] h = tt
    keyed-later i j (p ∷ ps) h = elim (Bool-cases (is_usable p)) [
      | inl e ↦ rw e (h, keyed-later i (suc j) ps (omega arith))
      | inr e ↦ rw e (keyed-later i (suc j) ps (omega arith))
    ]

    sort_by-Stands :
        (pre ps : List Proxy)
        → pre ++ ps ≡ all
        → Stands
            (sort_by best_first (keyed a (length pre) ps))
            (sort_by by_score (retain is_usable ps))
    unfolding Stands keyed sort_by
    sort_by-Stands pre [] h = tt
    sort_by-Stands pre (p ∷ ps) h =
        let rest : Stands (sort_by best_first (keyed a (suc (length pre)) ps))
            (sort_by by_score (retain is_usable ps)) =
          rw (length-concat pre p) at
            (sort_by-Stands (pre ++ p ∷ []) ps (append_assoc pre (p ∷ []) ps ∙ h)) in
        elim (Bool-cases (is_usable p)) [
          | inl e ↦ rw e (
              insert_by-Stands (score_proxy a p, length pre) p _ _ refl
                (subst (λ l. get_elem? l (length pre) ≡ some p) h (get_elem?-length pre p ps))
                (All-sort_by best_first (λ f. length pre < f.1) _
                  (keyed-later (length pre) (suc (length pre)) ps (omega arith)))
                rest)
          | inr e ↦ rw e rest
        ]

-- Top-N has the result of the stable sort of the usable nodes by score, best first, cut to `n`:
-- nodes of equal score keep the order in which they were given.
top_n_by_score_lem :
    (a : Arithmetic) (ps : List Proxy) (n : ℕ)
    → top_n_by_score a ps n ≡ take n (sort_by (by_score a) (retain is_usable ps))
unfolding top_n_by_score
top_n_by_score_lem a ps n =
    pick-Stands a ps _ _ (take-Stands a ps n _ _ (sort_by-Stands a ps [] ps refl))

by_score-IsOrderOn :
    (a : Arithmetic) → IsOrderOn (by_score a) (λ p. is_nan (score_proxy a p) ≡ false)
unfolding by_score partial_cmp
by_score-IsOrderOn a = record {
  flip = λ x y px py. ground (arith, px, py);
  trans = λ x y z px py pz h k. ground (arith, px, py, pz);
}

-- The smaller of two numbers.
abbrev pub fewer : ℕ → ℕ → ℕ
fewer zero m = zero
fewer (suc n) zero = zero
fewer (suc n) (suc m) = suc (fewer n m)

length-take : (n : ℕ) (ps : List Proxy) → length (take n ps) ≡ fewer n (length ps)
length-take zero ps = refl
length-take (suc n) [] = refl
length-take (suc n) (p ∷ ps) = ap suc (length-take n ps)

-- If no score is a NaN, the usable nodes can be listed, best score first, so that Top-N is the
-- first `n` of them: it has exactly `n` nodes, or all the usable ones where they are fewer, and no
-- usable node that is left out scores higher than one that is chosen.
pub top_n_by_score_best :
    (a : Arithmetic) (ps : List Proxy) (n : ℕ)
    → All (λ p. is_nan (score_proxy a p) ≡ false) ps
    → (rest : List Proxy) × Perm (top_n_by_score a ps n ++ rest) (retain is_usable ps)
      × Sorted (by_score a) (top_n_by_score a ps n ++ rest)
      × (length (top_n_by_score a ps n) ≡ fewer n (length (retain is_usable ps)))
top_n_by_score_best a ps n h =
    let best = sort_by (by_score a) (retain is_usable ps) in
    (
      drop n best,
      rw (top_n_by_score_lem a ps n, take-append-drop n best) (sort_by-perm (by_score a) _),
      rw (top_n_by_score_lem a ps n, take-append-drop n best)
          (sort_by-Sorted (by_score a) (by_score-IsOrderOn a) _ (All-retain _ is_usable ps h)),
      rw
          (
            top_n_by_score_lem a ps n,
            length-take n best,
            length-sort_by (by_score a) (retain is_usable ps),
          )
          refl,
    )
