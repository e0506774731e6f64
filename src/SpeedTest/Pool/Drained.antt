-- ===== src/SpeedTest/Pool/Drained.antt =====
-- Unless the callback cancels it, `tcp_ping_all` goes through all nodes (core/src/speedtest.rs).
use sub_hub.Common.{
  ℕ, zero, suc, ◌+◌, ◌<◌, ◌≤◌, ◌≡◌, refl, false, Bool-cases, Option-cases, inl, inr, none, List, [],
  ◌∷◌, length, get_elem?, arith,
}
use sub_hub.Model.Proxy.{Proxy}
use sub_hub.SpeedTest.{address, unresolved, endpoint, resolve_known}
use sub_hub.Common.Workers.{step, run, total, run-keeps}
use sub_hub.SpeedTest.Pool.{
  Phase, idle, checked, holding, missed, resolving, resolved, probed, tested, counted, reported,
  stopped, Shared, Answer, Job, work, idle_workers, fresh,
}
use sub_hub.SpeedTest.Pool.Ending.{alive, live}

get_elem?-none : (ps : List Proxy) (i : ℕ) → get_elem? ps i ≡ none → length ps ≤ i
get_elem?-none [] i e = omega arith
get_elem?-none (q ∷ ps) zero e = ground arith
get_elem?-none (q ∷ ps) (suc i) e = omega (arith, get_elem?-none ps i e)

-- One for a worker that has ended.
unfoldable ended : Phase → ℕ
ended stopped = 1
ended _ = 0

-- If of so many workers one has ended and nobody cancelled, the queue is empty.
abbrev Drained : Job → ℕ → Shared → Type 0
Drained job ends s = 0 < ends → s.cancelled ≡ false → length job.proxies ≤ s.next

work-Drained :
    (job : Job) (a : Answer) (w : Phase) (s : Shared) (rest : ℕ)
    → Drained job (ended w + rest) s
    → Drained job (ended (work job a w s).0 + rest) (work job a w s).1
unfolding work ended
work-Drained job a idle s rest d = ground arith
work-Drained job a checked s rest d = elim (Option-cases (get_elem? job.proxies s.next)) [
  | inl e ↦ rw (e, work, ended) (λ h c. get_elem?-none job.proxies s.next e)
  | inr (p, e) ↦ rw (e, work, ended) (λ h c. omega (arith, d h c))
]
work-Drained job a (holding p) s rest d = elim (Option-cases (endpoint s.cache p.server p.port)) [
  | inl e ↦ rw (e, work, ended) d
  | inr (o, e) ↦ rw (e, work, ended) d
]
work-Drained job a (missed p) s rest d =
    elim (Option-cases (resolve_known job.ip_literal s.cache p.server p.port)) [
      | inl e ↦ rw (e, work, ended) d
      | inr (r, e) ↦ rw (e, work, ended) d
    ]
work-Drained job a (resolving p) s rest d = d
work-Drained job a (resolved p (unresolved e)) s rest d = d
work-Drained job a (resolved p (address addr)) s rest d = d
work-Drained job a (probed p o) s rest d = d
work-Drained job a (tested r) s rest d = ground (arith, d)
work-Drained job a (counted r n) s rest d = elim (Bool-cases a.keep) [
  | inl e ↦ rw (e, work, ended) d
  | inr e ↦ rw (e, work, ended) (λ h c. cc)
]
work-Drained job a (reported r) s rest d = d
work-Drained job a stopped s rest d = d

idle_workers-ended : (n : ℕ) → total ended (idle_workers n) ≡ 0
unfolding idle_workers total ended
idle_workers-ended zero = refl
idle_workers-ended (suc n) = omega (arith, idle_workers-ended n)

fresh-Drained : (job : Job) (n : ℕ) → Drained job (total ended (idle_workers n)) fresh
fresh-Drained job n h c = absurd (omega (arith, idle_workers-ended n))

-- Workers, one at least, all of which have ended: some have.
alive-ended : (ws : List Phase) → 0 < length ws → alive ws ≡ 0 → 0 < total ended ws
unfolding alive live total ended
alive-ended [] h e = absurd (omega arith)
alive-ended (stopped ∷ ws) h e = omega arith
alive-ended (w ∷ ws) h e = absurd (omega arith)

step-length :
    (job : Job) (a : Answer) (i : ℕ) (ws : List Phase) (s : Shared)
    → length (step (work job) a i ws s).0 ≡ length ws
unfolding step
step-length job a i [] s = refl
step-length job a zero (w ∷ ws) s = refl
step-length job a (suc i) (w ∷ ws) s = omega (arith, step-length job a i ws s)

run-length :
    (job : Job) (is : List (ℕ × Answer)) (ws : List Phase) (s : Shared)
    → length (run (work job) is ws s).0 ≡ length ws
unfolding run
run-length job [] ws s = refl
run-length job ((i, a) ∷ is) ws s = omega (
  arith,
  run-length job is (step (work job) a i ws s).0 (step (work job) a i ws s).1,
  step-length job a i ws s,
)

idle_workers-length : (n : ℕ) → length (idle_workers n) ≡ n
unfolding idle_workers
idle_workers-length zero = refl
idle_workers-length (suc n) = omega (arith, idle_workers-length n)

pub run_drained :
    (job : Job) (workers : ℕ) (schedule : List (ℕ × Answer))
    → 0 < workers
    → alive (run (work job) schedule (idle_workers workers) fresh).0 ≡ 0
    → (run (work job) schedule (idle_workers workers) fresh).1.cancelled ≡ false
    → length job.proxies ≤ (run (work job) schedule (idle_workers workers) fresh).1.next
run_drained job workers schedule some_worker ends =
    run-keeps (work job) ended (Drained job) (work-Drained job) schedule (idle_workers workers)
      fresh (fresh-Drained job workers)
      (alive-ended (run (work job) schedule (idle_workers workers) fresh).0
        (omega (
          arith,
          run-length job schedule (idle_workers workers) fresh,
          idle_workers-length workers,
        ))
        ends)
