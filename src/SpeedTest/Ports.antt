-- ===== src/SpeedTest/Ports.antt =====
-- Which port the speed test dials (core/src/speedtest.rs): the cache of resolved hosts keeps addresses with
-- the port of the node that was resolved first.
use mathlib.Core.Path.{subst}
use sub_hub.Common.{
  ℕ, zero, suc, ◌≡◌, refl, Option-cases, inl, inr, none, some, List, [], ◌∷◌, Text, text_eq,
  text_eq_refl, text_eq→eq, Bool-cases, get_elem?, arith, All, every, ==_iff, ◌==◌, Bool, true,
}
use sub_hub.Model.Proxy.{Proxy}
use sub_hub.SpeedTest.{
  Resolved, address, unresolved, RunCache, DnsAnswer, addresses, refused, timeout, find_host,
  dns_get, dns_put, endpoint, remember_endpoint, resolve_uncached, resolve_known,
}
use sub_hub.Common.Workers.{step, run}
use sub_hub.SpeedTest.Pool.{
  Phase, idle, checked, holding, missed, resolving, resolved, probed, tested, counted, reported,
  stopped, Shared, Answer, Job, work, idle_workers, fresh,
}

-- Two nodes on one host that is no literal address: after the resolver answered for the first, the
-- second is dialled at the port of the first.
pub work-port_of_first :
    (job : Job) (a b : Answer) (p q : Proxy) (ip : Text) (ips : List Text) (s : Shared)
    → p.server ≡ q.server
    → job.ip_literal q.server ≡ none
    → a.dns ≡ addresses (ip ∷ ips)
    → (work job b (missed q) (work job a (resolving p) s).1).0
      ≡ resolved q (address (record { ip = ip; port = p.port }))
unfolding work resolve_known dns_get find_host dns_put resolve_uncached
work-port_of_first job a b p q ip ips s same no_literal answered =
    rw (no_literal, answered, same, work, resolve_known, text_eq_refl q.server, find_host) refl

get_elem?-All :
    (P : Proxy → Type 0) (ps : List Proxy) (i : ℕ) (p : Proxy)
    → All P ps
    → get_elem? ps i ≡ some p
    → P p
get_elem?-All P [] i p h e = ground arith
get_elem?-All P (q ∷ ps) zero p (h, hs) e = subst P (ground arith) h
get_elem?-All P (q ∷ ps) (suc i) p (h, hs) e = get_elem?-All P ps i p hs e

module _ (port_of : Text → ℕ) where
  -- An address that the port of the host goes with.
  abbrev AtPort : Text → Resolved → Type 0
  AtPort host (address a) = a.port ≡ port_of host
  AtPort host (unresolved e) = Unit

  abbrev OwnPort : Proxy → Type 0
  OwnPort p = p.port ≡ port_of p.server

  abbrev PhaseAtPort : Phase → Type 0
  PhaseAtPort (holding p) = OwnPort p
  PhaseAtPort (missed p) = OwnPort p
  PhaseAtPort (resolving p) = OwnPort p
  PhaseAtPort (resolved p r) = OwnPort p × AtPort p.server r
  PhaseAtPort _ = Unit

  abbrev HostsAtPort : List (Text × Resolved) → Type 0
  HostsAtPort = All (λ e. AtPort e.0 e.1)

  find_host-AtPort :
      (host : Text) (m : List (Text × Resolved)) (r : Resolved)
      → HostsAtPort m
      → find_host host m ≡ some r
      → AtPort host r
  unfolding find_host
  find_host-AtPort host [] r h e = ground arith
  find_host-AtPort host ((k, x) ∷ m) r h e = elim (Bool-cases (text_eq k host)) [
    | inl hit ↦
        subst (λ t. AtPort t r) (text_eq→eq k host hit) (subst (λ y. AtPort k y) (ground arith) h.0)
    | inr miss ↦ find_host-AtPort host m r h.1 (ground arith)
  ]

  resolve_uncached-AtPort :
      (p : Proxy) (d : DnsAnswer) → OwnPort p → AtPort p.server (resolve_uncached p.port d)
  unfolding resolve_uncached
  resolve_uncached-AtPort p (addresses []) own = tt
  resolve_uncached-AtPort p (addresses (ip ∷ ips)) own = own
  resolve_uncached-AtPort p (refused e) own = tt
  resolve_uncached-AtPort p timeout own = tt

  resolve_known-AtPort :
      (job : Job) (p : Proxy) (c : RunCache) (r : Resolved)
      → OwnPort p
      → HostsAtPort c.dns
      → resolve_known job.ip_literal c p.server p.port ≡ some r
      → AtPort p.server r
  unfolding resolve_known dns_get
  resolve_known-AtPort job p c r own hosts e = elim (Option-cases (job.ip_literal p.server)) [
    | inl none_e ↦ find_host-AtPort p.server c.dns r hosts (ground arith)
    | inr (ip, some_e) ↦
        subst (λ y. AtPort p.server y) {x = address (record { ip = ip; port = p.port })}
          (ground arith) own
  ]

  work-AtPort :
      (job : Job) (a : Answer) (w : Phase) (s : Shared)
      → All OwnPort job.proxies
      → PhaseAtPort w
      → HostsAtPort s.cache.dns
      → PhaseAtPort (work job a w s).0 × HostsAtPort (work job a w s).1.cache.dns
  unfolding work dns_put remember_endpoint
  work-AtPort job a idle s own w h = elim (Bool-cases s.cancelled) [
    | inl e ↦ rw (e, work) (tt, h)
    | inr e ↦ rw (e, work) (tt, h)
  ]
  work-AtPort job a checked s own w h = elim (Option-cases (get_elem? job.proxies s.next)) [
    | inl e ↦ rw (e, work) (tt, h)
    | inr (p, e) ↦ rw (e, work) (get_elem?-All OwnPort job.proxies s.next p own e, h)
  ]
  work-AtPort job a (holding p) s own w h = elim (Option-cases (endpoint s.cache p.server p.port)) [
    | inl e ↦ rw (e, work) (w, h)
    | inr (o, e) ↦ rw (e, work) (tt, h)
  ]
  work-AtPort job a (missed p) s own w h =
      elim (Option-cases (resolve_known job.ip_literal s.cache p.server p.port)) [
        | inl e ↦ rw (e, work) (w, h)
        | inr (r, e) ↦ rw (e, work) ((w, resolve_known-AtPort job p s.cache r w h e), h)
      ]
  work-AtPort job a (resolving p) s own w h =
      let r = resolve_uncached-AtPort p a.dns w in ((w, r), (r, h))
  work-AtPort job a (resolved p (unresolved e)) s own w h = (tt, h)
  work-AtPort job a (resolved p (address addr)) s own w h = (tt, h)
  work-AtPort job a (probed p o) s own w h = (tt, h)
  work-AtPort job a (tested r) s own w h = elim (Bool-cases job.reports) [
    | inl e ↦ rw (e, work) (tt, h)
    | inr e ↦ rw (e, work) (tt, h)
  ]
  work-AtPort job a (counted r n) s own w h = elim (Bool-cases a.keep) [
    | inl e ↦ rw (e, work) (tt, h)
    | inr e ↦ rw (e, work) (tt, h)
  ]
  work-AtPort job a (reported r) s own w h = (tt, h)
  work-AtPort job a stopped s own w h = (tt, h)

  step-AtPort :
      (job : Job) (a : Answer) (i : ℕ) (ws : List Phase) (s : Shared)
      → All OwnPort job.proxies
      → All PhaseAtPort ws
      → HostsAtPort s.cache.dns
      → All PhaseAtPort (step (work job) a i ws s).0
        × HostsAtPort (step (work job) a i ws s).1.cache.dns
  unfolding step
  step-AtPort job a i [] s own ps h = (tt, h)
  step-AtPort job a zero (w ∷ ws) s own ps h =
      let (p, h') = work-AtPort job a w s own ps.0 h in ((p, ps.1), h')
  step-AtPort job a (suc i) (w ∷ ws) s own ps h =
      let (qs, h') = step-AtPort job a i ws s own ps.1 h in ((ps.0, qs), h')

  run-AtPort :
      (job : Job) (is : List (ℕ × Answer)) (ws : List Phase) (s : Shared)
      → All OwnPort job.proxies
      → All PhaseAtPort ws
      → HostsAtPort s.cache.dns
      → All PhaseAtPort (run (work job) is ws s).0
  unfolding run
  run-AtPort job [] ws s own ps h = ps
  run-AtPort job ((i, a) ∷ is) ws s own ps h =
      let (qs, h') = step-AtPort job a i ws s own ps h in
      run-AtPort job is (step (work job) a i ws s).0 (step (work job) a i ws s).1 own qs h'

idle_workers-All : (P : Phase → Type 0) (n : ℕ) → P idle → All P (idle_workers n)
unfolding idle_workers
idle_workers-All P zero h = tt
idle_workers-All P (suc n) h = (h, idle_workers-All P n h)

-- The worker connects to the port of its node.
unfoldable pub dials_own_port : Phase → Bool
dials_own_port (resolved p (address a)) = a.port == p.port
dials_own_port _ = true

PhaseAtPort-dials :
    (port_of : Text → ℕ) (w : Phase) → PhaseAtPort port_of w → dials_own_port w ≡ true
unfolding dials_own_port
PhaseAtPort-dials port_of (resolved p (address a)) h = (==_iff a.port p.port).1 (omega arith)
PhaseAtPort-dials port_of w h = refl

every_dials :
    (port_of : Text → ℕ) (ws : List Phase)
    → All (PhaseAtPort port_of) ws
    → every dials_own_port ws ≡ true
every_dials port_of [] h = refl
every_dials port_of (w ∷ ws) (h, hs) =
    rw (PhaseAtPort-dials port_of w h, every_dials port_of ws hs) refl

-- If all nodes of a host have one port, then however the steps of the workers are interleaved,
-- every worker connects to the port of its node.
pub run-dials_own_port :
    (port_of : Text → ℕ) (job : Job) (workers : ℕ) (schedule : List (ℕ × Answer))
    → All (λ p. p.port ≡ port_of p.server) job.proxies
    → every dials_own_port (run (work job) schedule (idle_workers workers) fresh).0 ≡ true
run-dials_own_port port_of job workers schedule own =
    every_dials port_of (run (work job) schedule (idle_workers workers) fresh).0 (
      run-AtPort port_of job schedule (idle_workers workers) fresh own
        (idle_workers-All (PhaseAtPort port_of) workers tt) tt)
