-- ===== src/SpeedTest/Pool.antt =====
-- `tcp_ping_all` (core/src/speedtest.rs): worker threads over a shared queue. A worker goes from one
-- access of the shared state to the next; the answers of the network and of the callback are given.
pub mod Complete
pub mod Ending
pub mod Drained
use Prim.Native.Nat.{min, max}
use sub_hub.Common.{
  ℕ, zero, suc, ◌+◌, Bool, true, false, Option, none, some, List, [], ◌∷◌, ◌++◌, Text, length,
  get_elem?, if◌then◌else◌,
}
use sub_hub.Model.Proxy.{Proxy}
use sub_hub.SpeedTest.{
  SpeedTestResult, Resolved, ProbeOutcome, DnsAnswer, Connection, RunCache, IpLiteral, Quotient,
  address, unresolved, failed, dns_put, endpoint, remember_endpoint, resolve_uncached,
  resolve_known, connect, test_one,
}

-- Where a worker stands: at the head of the loop, past the test of `cancelled`, with a node before
-- the endpoint cache, past a miss, waiting for the resolver, before the connection, with an
-- outcome to remember, with a result, with its number in the progress, before sending, or ended.
pub data Phase : Type 0 where
  idle : Phase
  checked : Phase
  holding : Proxy → Phase
  missed : Proxy → Phase
  resolving : Proxy → Phase
  resolved : Proxy → Resolved → Phase
  probed : Proxy → ProbeOutcome → Phase
  tested : SpeedTestResult → Phase
  counted : SpeedTestResult → ℕ → Phase
  reported : SpeedTestResult → Phase
  stopped : Phase

-- The counter of the queue, the flag, the completion count, the channel in reverse, and the cache.
pub record Shared : Type 0 where
  pub next : ℕ
  pub cancelled : Bool
  pub done : ℕ
  pub sent : List SpeedTestResult
  pub cache : RunCache

-- What the world says to a step that asks it.
pub record Answer : Type 0 where
  pub dns : DnsAnswer
  pub connection : Connection
  pub keep : Bool

-- A run: its nodes, whether it has a callback, the parser of addresses, and division.
pub record Job : Type 0 where
  pub proxies : List Proxy
  pub reports : Bool
  pub ip_literal : IpLiteral
  pub divide : Quotient

module _ (job : Job) where
  -- One step of a worker.
  unfoldable pub work : Answer → Phase → Shared → Phase × Shared
  work a idle s = if s.cancelled then (stopped, s) else (checked, s)
  work a checked s = elim (get_elem? job.proxies s.next) [
    | none ↦ (stopped, s)
    | some p ↦ (holding p, record s { next = suc s.next })
  ]
  work a (holding p) s = elim (endpoint s.cache p.server p.port) [
    | none ↦ (missed p, s)
    | some o ↦ (tested (test_one p o), s)
  ]
  work a (missed p) s = elim (resolve_known job.ip_literal s.cache p.server p.port) [
    | none ↦ (resolving p, s)
    | some r ↦ (resolved p r, s)
  ]
  work a (resolving p) s =
      let r = resolve_uncached p.port a.dns in
      (resolved p r, record s { cache = dns_put s.cache p.server r })
  work a (resolved p (unresolved e)) s = (probed p (failed e), s)
  work a (resolved p (address addr)) s = (probed p (connect job.divide a.connection), s)
  work a (probed p o) s =
      (tested (test_one p o), record s { cache = remember_endpoint s.cache p.server p.port o })
  work a (tested r) s =
      if job.reports
      then (counted r (suc s.done), record s { done = suc s.done })
      else (reported r, s)
  work a (counted r n) s =
      if a.keep then (reported r, s) else (stopped, record s { cancelled = true })
  work a (reported r) s = (idle, record s { sent = r ∷ s.sent })
  work a stopped s = (stopped, s)

unfoldable pub idle_workers : ℕ → List Phase
idle_workers zero = []
idle_workers (suc n) = idle ∷ idle_workers n

-- `concurrency.clamp(1, 64).min(proxies.len())`.
unfoldable pub worker_count : ℕ → List Proxy → ℕ
worker_count concurrency ps = min (min (max concurrency 1) 64) (length ps)

abbrev pub fresh : Shared
fresh = record {
  next = 0;
  cancelled = false;
  done = 0;
  sent = [];
  cache = record { dns = []; endpoints = [] };
}
