-- ===== src/SpeedTest/Pool/Complete.antt =====
-- Which results the workers of `tcp_ping_all` send (core/src/speedtest.rs).
use sub_hub.Common.{
  ℕ, zero, suc, ◌+◌, ◌<◌, ◌≤◌, ◌≡◌, refl, Bool, false, Option-cases, inl, inr, some, List, [], ◌∷◌,
  length, get_elem?, arith, Text, if◌then◌else◌,
}
use sub_hub.Model.Proxy.{Proxy}
use sub_hub.Model.Fingerprint.{fingerprint}
use sub_hub.SpeedTest.{
  SpeedTestResult, ProbeOutcome, reached, failed, address, unresolved, endpoint, resolve_known,
  test_one,
}
use sub_hub.Common.Workers.{run, total, run-keeps}
use sub_hub.SpeedTest.Pool.{
  Phase, idle, checked, holding, missed, resolving, resolved, probed, tested, counted, reported,
  stopped, Shared, Answer, Job, work, idle_workers, fresh,
}
use sub_hub.SpeedTest.Pool.Drained.{run_drained}
use sub_hub.SpeedTest.Pool.Ending.{alive, live}

-- Nodes and results are counted by a test of their fingerprints.
module _ (test : Text → Bool) where
  abbrev pub is_key : Text → ℕ
  is_key t = if test t then 1 else 0

  unfoldable pub count_nodes : List Proxy → ℕ
  count_nodes [] = 0
  count_nodes (p ∷ ps) = is_key (fingerprint p) + count_nodes ps

  unfoldable pub count_results : List SpeedTestResult → ℕ
  count_results [] = 0
  count_results (r ∷ rs) = is_key r.fingerprint + count_results rs

  -- The nodes that pass among the first so many.
  unfoldable pub count_taken : ℕ → List Proxy → ℕ
  count_taken zero ps = 0
  count_taken (suc n) [] = 0
  count_taken (suc n) (p ∷ ps) = is_key (fingerprint p) + count_taken n ps

  -- Whether the worker is at a node that passes.
  unfoldable pub at_key : Phase → ℕ
  at_key (holding p) = is_key (fingerprint p)
  at_key (missed p) = is_key (fingerprint p)
  at_key (resolving p) = is_key (fingerprint p)
  at_key (resolved p r) = is_key (fingerprint p)
  at_key (probed p o) = is_key (fingerprint p)
  at_key (tested r) = is_key r.fingerprint
  at_key (counted r n) = is_key r.fingerprint
  at_key (reported r) = is_key r.fingerprint
  at_key _ = 0

  count_taken-suc :
      (n : ℕ) (ps : List Proxy) (p : Proxy)
      → get_elem? ps n ≡ some p
      → count_taken (suc n) ps ≡ count_taken n ps + is_key (fingerprint p)
  unfolding count_taken
  count_taken-suc n [] p e = ground arith
  count_taken-suc zero (q ∷ ps) p e = ground arith
  count_taken-suc (suc n) (q ∷ ps) p e = omega (arith, count_taken-suc n ps p e)

  count_taken-length_le :
      (n : ℕ) (ps : List Proxy) → length ps ≤ n → count_taken n ps ≡ count_nodes ps
  unfolding count_taken count_nodes
  count_taken-length_le zero [] h = refl
  count_taken-length_le (suc n) [] h = refl
  count_taken-length_le zero (p ∷ ps) h = absurd (omega arith)
  count_taken-length_le (suc n) (p ∷ ps) h = omega (arith, count_taken-length_le n ps (omega arith))

  test_one-key : (p : Proxy) (o : ProbeOutcome) → (test_one p o).fingerprint ≡ fingerprint p
  unfolding test_one
  test_one-key p (reached l b) = refl
  test_one-key p (failed e) = refl

  -- With so many nodes that pass at other workers, none is lost as long as nobody cancelled, and none is
  -- there twice.
  abbrev Kept : Job → ℕ → Shared → Type 0
  Kept job held s =
      (held + count_results s.sent ≤ count_taken s.next job.proxies)
      × (s.cancelled ≡ false → held + count_results s.sent ≡ count_taken s.next job.proxies)

  work-Kept :
      (job : Job) (a : Answer) (w : Phase) (s : Shared) (rest : ℕ)
      → Kept job (at_key w + rest) s
      → Kept job (at_key (work job a w s).0 + rest) (work job a w s).1
  unfolding work at_key count_results
  work-Kept job a idle s rest k = ground arith
  work-Kept job a checked s rest k = elim (Option-cases (get_elem? job.proxies s.next)) [
    | inl e ↦ rw (e, work, at_key) k
    | inr (p, e) ↦
        rw (e, work, at_key)
          (
            omega (arith, count_taken-suc s.next job.proxies p e),
            λ c. omega (arith, k.1 c, count_taken-suc s.next job.proxies p e),
          )
  ]
  work-Kept job a (holding p) s rest k = elim (Option-cases (endpoint s.cache p.server p.port)) [
    | inl e ↦ rw (e, work, at_key) k
    | inr (o, e) ↦ rw (e, work, at_key, test_one-key p o) k
  ]
  work-Kept job a (missed p) s rest k =
      elim (Option-cases (resolve_known job.ip_literal s.cache p.server p.port)) [
        | inl e ↦ rw (e, work, at_key) k
        | inr (r, e) ↦ rw (e, work, at_key) k
      ]
  work-Kept job a (resolving p) s rest k = k
  work-Kept job a (resolved p (unresolved e)) s rest k = k
  work-Kept job a (resolved p (address addr)) s rest k = k
  work-Kept job a (probed p o) s rest k = rw (test_one-key p o) k
  work-Kept job a (tested r) s rest k = ground arith
  work-Kept job a (counted r n) s rest k = ground arith
  work-Kept job a (reported r) s rest k = (omega arith, λ c. omega (arith, k.1 c))
  work-Kept job a stopped s rest k = k

  idle_workers-at_key : (n : ℕ) → total at_key (idle_workers n) ≡ 0
  unfolding idle_workers total at_key
  idle_workers-at_key zero = refl
  idle_workers-at_key (suc n) = omega (arith, idle_workers-at_key n)

  alive-at_key : (ws : List Phase) → alive ws ≡ 0 → total at_key ws ≡ 0
  unfolding alive total live at_key
  alive-at_key [] h = refl
  alive-at_key (stopped ∷ ws) h = omega (arith, alive-at_key ws (omega arith))
  alive-at_key (w ∷ ws) h = absurd (omega arith)

  count_taken-le : (n : ℕ) (ps : List Proxy) → count_taken n ps ≤ count_nodes ps
  unfolding count_taken count_nodes
  count_taken-le zero ps = omega arith
  count_taken-le (suc n) [] = omega arith
  count_taken-le (suc n) (p ∷ ps) = omega (arith, count_taken-le n ps)

  fresh-Kept : (job : Job) (n : ℕ) → Kept job (total at_key (idle_workers n)) fresh
  unfolding count_results count_taken
  fresh-Kept job n =
      (omega (arith, idle_workers-at_key n), λ c. omega (arith, idle_workers-at_key n))

  -- What is left once all workers have ended.
  finished :
      (job : Job) (ws : List Phase) (s : Shared)
      → alive ws ≡ 0
      → Kept job (total at_key ws) s
      → length job.proxies ≤ s.next
      → s.cancelled ≡ false
      → count_results s.sent ≡ count_nodes job.proxies
  finished job ws s ends k empty c =
      omega (arith, k.1 c, alive-at_key ws ends, count_taken-length_le s.next job.proxies empty)

-- However the steps of the workers are interleaved, and whatever the network and the callback
-- answer, no more results than nodes pass a test of their fingerprints.
pub sent-le :
    (job : Job) (workers : ℕ) (schedule : List (ℕ × Answer)) (test : Text → Bool)
    → count_results test (run (work job) schedule (idle_workers workers) fresh).1.sent
      ≤ count_nodes test job.proxies
sent-le job workers schedule test =
    let kept =
      run-keeps (work job) (at_key test) (Kept test job) (work-Kept test job) schedule
        (idle_workers workers) fresh (fresh-Kept test job workers) in
    omega (
      arith,
      count_taken-le test (run (work job) schedule (idle_workers workers) fresh).1.next job.proxies,
    )

-- However the steps of the workers, one at least, are interleaved, and whatever the network and
-- the callback answer: once all workers have ended without a cancellation, as many results as
-- nodes pass each test of their fingerprints, so that every node has its result and none has two.
pub tcp_ping_all_complete :
    (job : Job) (workers : ℕ) (schedule : List (ℕ × Answer)) (test : Text → Bool)
    → 0 < workers
    → alive (run (work job) schedule (idle_workers workers) fresh).0 ≡ 0
    → (run (work job) schedule (idle_workers workers) fresh).1.cancelled ≡ false
    → count_results test (run (work job) schedule (idle_workers workers) fresh).1.sent
      ≡ count_nodes test job.proxies
tcp_ping_all_complete job workers schedule test some_worker ends uncancelled =
    let kept =
      run-keeps (work job) (at_key test) (Kept test job) (work-Kept test job) schedule
        (idle_workers workers) fresh (fresh-Kept test job workers) in
    let (ws, s) = run (work job) schedule (idle_workers workers) fresh in
    finished test job ws s ends kept (run_drained job workers schedule some_worker ends uncancelled)
      uncancelled
