-- ===== src/SpeedTest/Pool/Ending.antt =====
-- The workers of `tcp_ping_all` end (core/src/speedtest.rs).
use sub_hub.Common.{
  ℕ, zero, suc, ◌+◌, ◌-◌, ◌*◌, ◌<◌, ◌≤◌, ◌≡◌, refl, Option-cases, inl, inr, some, List, [], ◌∷◌,
  length, get_elem?, arith,
}
use sub_hub.Model.Proxy.{Proxy}
use sub_hub.SpeedTest.{address, unresolved, endpoint, resolve_known}
use sub_hub.Common.Workers.{step, sweep, sweeps}
use sub_hub.SpeedTest.Pool.{
  Phase, idle, checked, holding, missed, resolving, resolved, probed, tested, counted, reported,
  stopped, Shared, Answer, Job, work, fresh, idle_workers,
}

-- How many steps a worker has before it is at the head of the loop with a node less to take.
unfoldable pub rank : Phase → ℕ
rank stopped = 0
rank checked = 1
rank idle = 2
rank (reported r) = 3
rank (counted r n) = 4
rank (tested r) = 5
rank (probed p o) = 6
rank (resolved p r) = 7
rank (resolving p) = 8
rank (missed p) = 9
rank (holding p) = 10

unfoldable pub ranks : List Phase → ℕ
unfolding rank
ranks [] = 0
ranks (w ∷ ws) = rank w + ranks ws

unfoldable pub live : Phase → ℕ
live stopped = 0
live _ = 1

-- How many workers have not ended.
unfoldable pub alive : List Phase → ℕ
unfolding live
alive [] = 0
alive (w ∷ ws) = live w + alive ws

-- The nodes that nobody has taken, and the steps left on those that were.
abbrev pub measure : Job → ℕ → Shared → ℕ
measure job r s = 10 * (length job.proxies - s.next) + r

get_elem?-lt : (ps : List Proxy) (i : ℕ) (p : Proxy) → get_elem? ps i ≡ some p → i < length ps
get_elem?-lt [] i p e = ground arith
get_elem?-lt (q ∷ ps) zero p e = omega arith
get_elem?-lt (q ∷ ps) (suc i) p e = omega (arith, get_elem?-lt ps i p e)

work-measure :
    (job : Job) (a : Answer) (w : Phase) (s : Shared)
    → measure job (rank (work job a w s).0) (work job a w s).1 + live w ≤ measure job (rank w) s
unfolding work rank live
work-measure job a idle s = ground arith
work-measure job a checked s = elim (Option-cases (get_elem? job.proxies s.next)) [
  | inl e ↦ rw (e, work, rank) (omega arith)
  | inr (p, e) ↦ rw (e, work, rank) (omega (arith, get_elem?-lt job.proxies s.next p e))
]
work-measure job a (holding p) s = elim (Option-cases (endpoint s.cache p.server p.port)) [
  | inl e ↦ rw (e, work, rank) (omega arith)
  | inr (o, e) ↦ rw (e, work, rank) (omega arith)
]
work-measure job a (missed p) s =
    elim (Option-cases (resolve_known job.ip_literal s.cache p.server p.port)) [
      | inl e ↦ rw (e, work, rank) (omega arith)
      | inr (r, e) ↦ rw (e, work, rank) (omega arith)
    ]
work-measure job a (resolving p) s = omega arith
work-measure job a (resolved p (unresolved e)) s = omega arith
work-measure job a (resolved p (address addr)) s = omega arith
work-measure job a (probed p o) s = omega arith
work-measure job a (tested r) s = ground arith
work-measure job a (counted r n) s = ground arith
work-measure job a (reported r) s = omega arith
work-measure job a stopped s = omega arith

sweep-measure :
    (job : Job) (a : ℕ → Answer) (ws : List Phase) (s : Shared)
    → measure job (ranks (sweep (work job) a ws s).0) (sweep (work job) a ws s).1 + alive ws
      ≤ measure job (ranks ws) s
unfolding sweep ranks alive
sweep-measure job a [] s = omega arith
sweep-measure job a (w ∷ ws) s =
    let first = work-measure job (a 0) w s in
    let rest = sweep-measure job (λ i. a (suc i)) ws (work job (a 0) w s).1 in omega arith

live-le-one : (w : Phase) → live w ≤ 1
unfolding live
live-le-one w = ground arith

live-le-rank : (w : Phase) → live w ≤ rank w
unfolding live rank
live-le-rank w = ground arith

work-live : (job : Job) (a : Answer) (w : Phase) (s : Shared) → live (work job a w s).0 ≤ live w
unfolding work live
work-live job a stopped s = omega arith
work-live job a w s = live-le-one (work job a w s).0

sweep-alive :
    (job : Job) (a : ℕ → Answer) (ws : List Phase) (s : Shared)
    → alive (sweep (work job) a ws s).0 ≤ alive ws
unfolding sweep alive
sweep-alive job a [] s = omega arith
sweep-alive job a (w ∷ ws) s =
    omega
      (arith, work-live job (a 0) w s, sweep-alive job (λ i. a (suc i)) ws (work job (a 0) w s).1)

alive-le-ranks : (ws : List Phase) → alive ws ≤ ranks ws
unfolding alive ranks live rank
alive-le-ranks [] = omega arith
alive-le-ranks (w ∷ ws) = omega (arith, live-le-rank w, alive-le-ranks ws)

sweeps-alive :
    (job : Job) (n : ℕ) (a : ℕ → ℕ → Answer) (ws : List Phase) (s : Shared)
    → (alive (sweeps (work job) n a ws s).0 ≤ alive ws)
      × (measure job (ranks ws) s ≤ n → alive (sweeps (work job) n a ws s).0 ≡ 0)
unfolding sweeps
sweeps-alive job zero a ws s = (omega arith, λ h. omega (arith, alive-le-ranks ws))
sweeps-alive job (suc n) a ws s =
    let (ws', s') = sweep (work job) (a 0) ws s in
    let (falls, ends) = sweeps-alive job n (λ i. a (suc i)) ws' s' in
    (
      omega (arith, sweep-alive job (a 0) ws s),
      λ h. ground (arith, sweep-alive job (a 0) ws s, sweep-measure job (a 0) ws s),
    )

idle_workers-ranks : (n : ℕ) → ranks (idle_workers n) ≡ 2 * n
unfolding idle_workers ranks rank
idle_workers-ranks zero = refl
idle_workers-ranks (suc n) = omega (arith, idle_workers-ranks n)

-- Whatever the network and the callback answer, and whatever the cache holds on the way, after ten
-- rounds for each node and two for each worker every worker has ended.
pub sweeps_end :
    (job : Job) (workers : ℕ) (a : ℕ → ℕ → Answer)
    → alive
        (sweeps (work job) (10 * length job.proxies + 2 * workers) a (idle_workers workers) fresh).0
      ≡ 0
sweeps_end job workers a =
    (sweeps-alive job (10 * length job.proxies + 2 * workers) a (idle_workers workers) fresh).1
      (omega (arith, idle_workers-ranks workers))

-- Whether the worker of the given number is there and has not ended.
unfoldable pub moved : ℕ → List Phase → ℕ
unfolding live
moved i [] = 0
moved zero (w ∷ ws) = live w
moved (suc i) (w ∷ ws) = moved i ws

-- The steps of a schedule that move a worker that has not ended.
moves : Job → List (ℕ × Answer) → List Phase → Shared → ℕ
unfolding moved step
moves job [] ws s = 0
moves job ((i, a) ∷ rest) ws s =
    let (ws', s') = step (work job) a i ws s in moved i ws + moves job rest ws' s'

step-measure :
    (job : Job) (a : Answer) (i : ℕ) (ws : List Phase) (s : Shared)
    → measure job (ranks (step (work job) a i ws s).0) (step (work job) a i ws s).1 + moved i ws
      ≤ measure job (ranks ws) s
unfolding step ranks moved
step-measure job a i [] s = omega arith
step-measure job a zero (w ∷ ws) s = omega (arith, work-measure job a w s)
step-measure job a (suc i) (w ∷ ws) s = omega (arith, step-measure job a i ws s)

moves-le :
    (job : Job) (is : List (ℕ × Answer)) (ws : List Phase) (s : Shared)
    → moves job is ws s ≤ measure job (ranks ws) s
unfolding moves
moves-le job [] ws s = omega arith
moves-le job ((i, a) ∷ is) ws s =
    let (ws', s') = step (work job) a i ws s in
    omega (arith, step-measure job a i ws s, moves-le job is ws' s')

-- However the steps of the workers are interleaved, and whatever the network and the callback
-- answer, workers that have not ended make no more than ten steps for each node and two for each
-- worker.
moves_bounds :
    (job : Job) (workers : ℕ) (schedule : List (ℕ × Answer))
    → moves job schedule (idle_workers workers) fresh ≤ 10 * length job.proxies + 2 * workers
moves_bounds job workers schedule =
    omega (arith, moves-le job schedule (idle_workers workers) fresh, idle_workers-ranks workers)
