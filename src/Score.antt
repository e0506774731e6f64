-- ===== src/Score.antt =====
-- `score_proxy` (core/src/score.rs): the composite score by which nodes are ranked. Rounded
-- arithmetic on doubles is a parameter; comparisons, clamping and the constants are computed.
pub mod Bounds
use sub_hub.Common.{
  ℕ, suc, ◌+◌, Bool, true, false, not, ◌&&◌, ◌||◌, Option, none, some, List, [], ◌∷◌, Text, lit,
  length, retain, text_eq, unwrap_or, ltb, ◌==◌, if◌then◌else◌,
}
use sub_hub.Common.Float.{F64, float_zero, float_lt, is_finite}
use sub_hub.Model.Proxy.{Proxy, ProxyUnlock, UnlockResult}

-- The operations of binary64 that round, and `u64 as f64`.
pub record Arithmetic : Type 0 where
  pub add : F64 → F64 → F64
  pub sub : F64 → F64 → F64
  pub mul : F64 → F64 → F64
  pub div : F64 → F64 → F64
  pub sqrt : F64 → F64
  pub of_u64 : ℕ → F64

-- The constants of the source, as the doubles nearest to them.
abbrev pub two_thousand : F64
two_thousand = record { bits = 0x409F400000000000 }

abbrev fifty_mbps : F64
fifty_mbps = record { bits = 0x4157D78400000000 }

abbrev pub hundred : F64
hundred = record { bits = 0x4059000000000000 }

abbrev one : F64
one = record { bits = 0x3FF0000000000000 }

abbrev latency_weight : F64
latency_weight = record { bits = 0x3FDCCCCCCCCCCCCD }

abbrev bandwidth_weight : F64
bandwidth_weight = record { bits = 0x3FD999999999999A }

abbrev unlock_weight : F64
unlock_weight = record { bits = 0x3FC3333333333333 }

-- `f64::clamp`.
unfoldable pub clamp : F64 → F64 → F64 → F64
clamp x lo hi = let y = if float_lt x lo then lo else x in if float_lt hi y then hi else y

-- The latency that is scored; `None` where the source returns 0.0 at once.
unfoldable pub scored_latency : Proxy → Option ℕ
scored_latency p = elim p.available [
  | none ↦ some 500
  | some true ↦ some (unwrap_or p.latency_ms 2000)
  | some false ↦ none
]

-- The variable `bw`.
unfoldable pub scored_bandwidth : Bool → Option F64 → F64
scored_bandwidth measured none = float_zero
scored_bandwidth measured (some b) = if measured && is_finite b then b else float_zero

module _ (a : Arithmetic) where
  unfoldable pub latency_score : ℕ → F64
  unfolding clamp
  latency_score ms = a.sub one (a.div (clamp (a.of_u64 ms) float_zero two_thousand) two_thousand)

  unfoldable pub bandwidth_score : F64 → F64
  unfolding clamp
  bandwidth_score bw = a.sqrt (clamp (a.div bw fifty_mbps) float_zero one)

  unfoldable pub unlock_score : Option ProxyUnlock → F64
  unlock_score none = float_zero
  unlock_score (some u) =
      let services = length u.services in
      let unlocked = retain (λ s. text_eq s.1.status (lit "unlocked")) u.services in
      if services == 0 then float_zero else a.div (a.of_u64 (length unlocked)) (a.of_u64 services)

  unfoldable pub weigh : ℕ → Proxy → F64
  unfolding latency_score bandwidth_score unlock_score scored_bandwidth clamp
  weigh ms p =
      let bw = scored_bandwidth p.bandwidth_measured p.download_speed_bps in
      let raw =
        a.add
          (a.add (a.mul latency_weight (latency_score ms))
            (a.mul bandwidth_weight (bandwidth_score bw)))
          (a.mul unlock_weight (unlock_score p.unlock)) in
      clamp (a.mul raw hundred) float_zero hundred

  unfoldable pub score_proxy : Proxy → F64
  unfolding scored_latency
  score_proxy p = elim (scored_latency p) [ none ↦ float_zero | some ms ↦ weigh ms p ]
