-- ===== src/Score/Bounds.antt =====
-- The range of the score, and what it does not depend on.
use mathlib.Core.Path.{ap, fun_ext}
use sub_hub.Common.{
  ℕ, ◌≤◌, ◌≡◌, refl, ◌⊎◌, inl, inr, Bool-cases, Bool, true, false, ◌&&◌, Option, none, some, arith,
}
use sub_hub.Common.Float.{F64, float_zero, float_lt, is_nan, order_key, is_finite}
use sub_hub.Model.Proxy.{Proxy}
use sub_hub.Score.{Arithmetic, hundred, clamp, weigh, score_proxy, scored_latency, scored_bandwidth}

-- A number from 0.0 to 100.0.
pub record InRange (x : F64) : Type 0 where
  pub at_least : order_key float_zero ≤ order_key x
  pub at_most : order_key x ≤ order_key hundred

clamp-InRange : (x : F64) → is_nan x ≡ false → InRange (clamp x float_zero hundred)
unfolding clamp float_lt order_key is_nan
clamp-InRange x h = ground arith

clamp-nan : (x : F64) → is_nan x ≡ true → is_nan (clamp x float_zero hundred) ≡ true
unfolding clamp float_lt is_nan
clamp-nan x h = ground arith

weigh_range :
    (a : Arithmetic) (ms : ℕ) (p : Proxy) → (is_nan (weigh a ms p) ≡ true) ⊎ InRange (weigh a ms p)
unfolding weigh
weigh_range a ms p =
    let x = a.mul _ hundred in
    elim (Bool-cases (is_nan x)) [ inl h ↦ inl (clamp-nan x h) | inr h ↦ inr (clamp-InRange x h) ]

zero-InRange : InRange float_zero
unfolding order_key
zero-InRange = omega arith

dead_zero : (a : Arithmetic) (p : Proxy) → p.available ≡ some false → score_proxy a p ≡ float_zero
unfolding score_proxy
dead_zero a p e = rw (e, scored_latency)

-- Whatever the rounded arithmetic computes, the score of a node is a number from 0.0 to 100.0 or a
-- NaN, and the score of a node found unavailable is 0.0.
score_proxy_range :
    (a : Arithmetic) (p : Proxy)
    → ((is_nan (score_proxy a p) ≡ true) ⊎ InRange (score_proxy a p))
      × (p.available ≡ some false → score_proxy a p ≡ float_zero)
unfolding score_proxy
score_proxy_range a p = (
  elim (scored_latency p)
      as (λ o.
        let s : F64 = elim o [ none ↦ float_zero | some ms ↦ weigh a ms p ] in
        (is_nan s ≡ true) ⊎ InRange s) [ none ↦ inr zero-InRange | some ms ↦ weigh_range a ms p ],
  dead_zero a p,
)

-- A bandwidth that counts: measured by the engine, and finite.
unfoldable pub counts : Bool → Option F64 → Bool
counts measured none = false
counts measured (some b) = measured && is_finite b

scored_bandwidth-zero :
    (m : Bool) (x : Option F64) → counts m x ≡ false → scored_bandwidth m x ≡ float_zero
unfolding counts scored_bandwidth
scored_bandwidth-zero m none h = refl
scored_bandwidth-zero m (some b) h = rw h

module _ (a : Arithmetic) (p : Proxy) (m n : Bool) (x y : Option F64) (h : counts m x ≡ false)
    (k : counts n y ≡ false) where
  weigh-ignores :
      (ms : ℕ)
      → weigh a ms (record p { bandwidth_measured = m; download_speed_bps = x })
        ≡ weigh a ms (record p { bandwidth_measured = n; download_speed_bps = y })
  unfolding weigh
  weigh-ignores ms = rw (scored_bandwidth-zero m x h, scored_bandwidth-zero n y k)

  -- Two nodes that differ only in a bandwidth that was not measured by the engine or is not finite,
  -- and in the mark that it was measured, have the same score.
  pub score_proxy-ignores :
      score_proxy a (record p { bandwidth_measured = m; download_speed_bps = x })
      ≡ score_proxy a (record p { bandwidth_measured = n; download_speed_bps = y })
  unfolding score_proxy
  score_proxy-ignores =
      ap (λ (f : ℕ → F64). elim (scored_latency p) [ none ↦ float_zero | some ms ↦ f ms ])
        (fun_ext weigh-ignores)
