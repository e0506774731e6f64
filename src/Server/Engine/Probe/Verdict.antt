-- ===== src/Server/Engine/Probe/Verdict.antt =====
-- The verdicts of the probes over their attempts (server/src/engine.rs).
use sub_hub.Common.{
  ℕ, zero, suc, ◌<◌, ◌≤◌, ◌≡◌, refl, ◌&&◌, Bool-cases, inl, inr, Option, none, some, arith, leb,
  ltb, if◌then◌else◌,
}
use sub_hub.Server.Engine.Probe.{
  Reply, response, no_response, latency_from, latency_via, DelayReply, verdict, positive,
  delay_from, delay_via_api,
}

-- No attempt before the given one was answered.
abbrev pub Silent : (ℕ → DelayReply) → ℕ → Type 0
Silent replies n = (i : ℕ) → i < n → verdict (replies i) ≡ none

delay_from-eq_some :
    (f : ℕ) (replies : ℕ → DelayReply) (n d : ℕ)
    → n < f
    → Silent replies n
    → verdict (replies n) ≡ some d
    → delay_from f replies ≡ positive d
unfolding delay_from
delay_from-eq_some zero replies n d h silent e = absurd (omega arith)
delay_from-eq_some (suc f) replies zero d h silent e = rw (e, delay_from) refl
delay_from-eq_some (suc f) replies (suc n) d h silent e =
    rw (silent 0 (omega arith), delay_from)
      (delay_from-eq_some f (λ i. replies (suc i)) n d (omega arith)
        (λ i lt. silent (suc i) (omega arith)) e)

delay_from-Silent :
    (f : ℕ) (replies : ℕ → DelayReply) → Silent replies f → delay_from f replies ≡ none
unfolding delay_from
delay_from-Silent zero replies silent = refl
delay_from-Silent (suc f) replies silent =
    rw (silent 0 (omega arith), delay_from)
      (delay_from-Silent f (λ i. replies (suc i)) (λ i lt. silent (suc i) (omega arith)))

-- The first of three attempts in which the engine states a delay decides: a delay above 0 is the
-- result, and a delay of 0 means that the node fails, with no further attempt.
delay_via_api-first :
    (replies : ℕ → DelayReply) (n d : ℕ)
    → n < 3
    → Silent replies n
    → verdict (replies n) ≡ some d
    → delay_via_api replies ≡ positive d
unfolding delay_via_api
delay_via_api-first replies n d h silent e = delay_from-eq_some 3 replies n d h silent e

-- One of so many responses came after the given time with a status from 200 to 399.
abbrev pub Accepted : ℕ → (ℕ → Reply) → ℕ → Type 0
Accepted f replies ms =
    (n : ℕ) × (code : ℕ) × (n < f) × (replies n ≡ response code ms) × (200 ≤ code) × (code < 400)

latency_from-some :
    (f : ℕ) (replies : ℕ → Reply) (ms : ℕ)
    → latency_from f replies ≡ some ms
    → Accepted f replies ms
unfolding latency_from
latency_from-some zero replies ms e = cc
latency_from-some (suc f) replies ms e =
    go (replies 0) refl (latency_from-some f (λ i. replies (suc i)) ms) e
  where
    go :
        (r : Reply)
        → replies 0 ≡ r
        → (latency_from f (λ i. replies (suc i)) ≡ some ms → Accepted f (λ i. replies (suc i)) ms)
        → elim r as (λ _. Option ℕ) [
          | no_response ↦ latency_from f (λ i. replies (suc i))
          | response code elapsed ↦
              if leb 200 code && ltb code 400
              then some elapsed
              else latency_from f (λ i. replies (suc i))
        ]
          ≡ some ms
        → Accepted (suc f) replies ms
    go no_response r0 ih h = let (n, code, a, b, c, d) = ih h in (suc n, code, omega arith, b, c, d)
    go (response code elapsed) r0 ih h = elim (Bool-cases (leb 200 code && ltb code 400)) [
      | inl e ↦ (0, code, omega arith, ground arith, ground arith, ground arith)
      | inr e ↦ let (n, code', a, b, c, d) = ih (rw e at h) in (suc n, code', omega arith, b, c, d)
    ]

-- A latency through the proxy is that of one of three responses, with a status from 200 to 399.
pub latency_via-response :
    (replies : ℕ → Reply) (ms : ℕ) → latency_via replies ≡ some ms → Accepted 3 replies ms
unfolding latency_via
latency_via-response replies ms e = latency_from-some 3 replies ms e
