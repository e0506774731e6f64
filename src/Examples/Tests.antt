-- ===== src/Examples/Tests.antt =====
-- Theorems about the speed test and the leases of ports, at concrete inputs.
use sub_hub.Common.{
  ℕ, ◌+◌, ◌*◌, ◌<◌, ◌≤◌, ◌≡◌, refl, true, false, none, some, List, [], ◌∷◌, map, lit, length,
  text_eq, arith, every,
}
use sub_hub.Common.Float.{float_zero}
use sub_hub.Common.Workers.{run, sweeps, total}
use sub_hub.Model.Proxy.{Proxy, ss, new}
use sub_hub.SpeedTest.{addresses, connected}
use sub_hub.SpeedTest.Pool.{Answer, Job, fresh, idle_workers, work, missed, resolving, resolved}
use sub_hub.SpeedTest.{address}
use sub_hub.SpeedTest.Pool.Ending.{alive, sweeps_end}
use sub_hub.SpeedTest.Pool.Complete.{count_results, count_nodes, tcp_ping_all_complete}
use sub_hub.SpeedTest.Ports.{work-port_of_first, dials_own_port, run-dials_own_port}
use sub_hub.Server.Engine.Ports.{
  Attempt, bound, failed, asking, ended, alloc_ports, lease_step, contains_port,
}
use sub_hub.Model.Fingerprint.{fingerprint}
use sub_hub.SpeedTest.{
  endpoint, resolve_known, resolve_uncached, connect, test_one, remember_endpoint,
}
use sub_hub.Server.Engine.Ports.Exclusive.{count_port, held, leases_exclusive}
use sub_hub.Server.Engine.Ports.Leak.{lease_step-leaks}

-- Two nodes on one host, at two ports.
abbrev first : Proxy
first = new (lit "a") ss (lit "h.example") 443

abbrev second_node : Proxy
second_node = new (lit "b") ss (lit "h.example") 8443

abbrev job : Job
job = record {
  proxies = first ∷ first ∷ [];
  reports = true;
  ip_literal = λ s. none;
  divide = λ n x. float_zero;
}

abbrev up : Answer
up = record {
  dns = addresses (lit "192.0.2.1" ∷ []);
  connection = connected 20 (some 65536 ∷ none ∷ []) float_zero;
  keep = true;
}

-- The one worker takes so many steps.
abbrev steps : List (ℕ × Answer)
steps =
    map {A = ℕ} (λ i. (0, up))
      (0 ∷ 0 ∷ 0 ∷ 0 ∷ 0 ∷ 0 ∷ 0 ∷ 0 ∷ 0 ∷ 0 ∷ 0 ∷ 0 ∷ 0 ∷ 0 ∷ 0 ∷ 0 ∷ 0 ∷ 0 ∷ 0 ∷ 0 ∷ [])

steps_end : alive (run (work job) steps (idle_workers 1) fresh).0 ≡ 0
unfolding alive run idle_workers work endpoint resolve_known resolve_uncached connect test_one
    remember_endpoint text_eq
steps_end = refl

not_cancelled : (run (work job) steps (idle_workers 1) fresh).1.cancelled ≡ false
unfolding run idle_workers work endpoint resolve_known resolve_uncached connect test_one
    remember_endpoint text_eq
not_cancelled = refl

tcp_ping_all_complete_example :
    count_results (text_eq (fingerprint first)) (run (work job) steps (idle_workers 1) fresh).1.sent
    ≡ count_nodes (text_eq (fingerprint first)) job.proxies
tcp_ping_all_complete_example =
    tcp_ping_all_complete job 1 steps (text_eq (fingerprint first)) (omega arith) steps_end
      not_cancelled

sweeps_end_example :
    alive (sweeps (work job) (10 * length job.proxies + 2 * 3) (λ i j. up) (idle_workers 3) fresh).0
    ≡ 0
sweeps_end_example = sweeps_end job 3 (λ i j. up)

run-dials_own_port_example :
    every dials_own_port (run (work job) steps (idle_workers 1) fresh).0 ≡ true
run-dials_own_port_example = run-dials_own_port (λ host. 443) job 1 steps (refl, (refl, tt))

work-port_of_first_example :
    (work job up (missed second_node) (work job up (resolving first) fresh).1).0
    ≡ resolved second_node (address (record { ip = lit "192.0.2.1"; port = 443 }))
work-port_of_first_example =
    work-port_of_first job up up first second_node (lit "192.0.2.1") [] fresh refl refl refl

held_port : 0 < count_port 40001 (40001 ∷ [])
unfolding count_port
held_port = omega arith

registered_port : contains_port (40001 ∷ []) 40001 ≡ true
unfolding contains_port
registered_port = refl

-- Two starts, for one port and for two; the system hands one port out twice.
abbrev attempts : List (ℕ × Attempt)
attempts =
    (0, bound 40001) ∷ (1, bound 40001) ∷ (1, bound 40002) ∷ (0, failed) ∷ (1, bound 40003) ∷ []

leases_exclusive_example :
    total (held 40001) (run lease_step attempts (map alloc_ports (1 ∷ 2 ∷ [])) []).0 ≤ 1
leases_exclusive_example = leases_exclusive attempts (1 ∷ 2 ∷ []) 40001

lease_step-leaks_example :
    ((lease_step failed (asking 2 63 (40001 ∷ [])) (40001 ∷ [])).0 ≡ ended)
    × (total
          (held 40001)
          (run lease_step attempts
            (map alloc_ports (1 ∷ 2 ∷ []))
            (lease_step failed (asking 2 63 (40001 ∷ [])) (40001 ∷ [])).1).0
        ≡ 0)
    × (contains_port
          (run lease_step attempts
            (map alloc_ports (1 ∷ 2 ∷ []))
            (lease_step failed (asking 2 63 (40001 ∷ [])) (40001 ∷ [])).1).1
          40001
        ≡ true)
lease_step-leaks_example =
    lease_step-leaks 2 62 (40001 ∷ []) (40001 ∷ []) 40001 attempts (1 ∷ 2 ∷ []) (omega arith)
      held_port registered_port
