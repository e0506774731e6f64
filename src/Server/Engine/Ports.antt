-- ===== src/Server/Engine/Ports.antt =====
-- The leases of local ports (`alloc_ports`, `PortLease` and `PORTS_IN_USE` in server/src/engine.rs).
pub mod Exclusive
pub mod Leak
use sub_hub.Common.{
  ℕ, zero, suc, ◌+◌, Bool, true, false, not, ◌||◌, List, [], ◌∷◌, ◌++◌, length, ltb, leb, retain,
  any, ◌==◌, if◌then◌else◌,
}

-- What the system says to an attempt: a free port, or that a call failed.
pub data Attempt : Type 0 where
  bound : ℕ → Attempt
  failed : Attempt

-- A start of an engine: it asks for so many ports, with the rounds left and the ports chosen; it
-- holds a lease; or it has ended, with the lease given back or without one.
pub data Start : Type 0 where
  asking : ℕ → ℕ → List ℕ → Start
  leased : List ℕ → Start
  ended : Start

abbrev pub attempts : ℕ
attempts = 64

unfoldable pub contains_port : List ℕ → ℕ → Bool
contains_port ps p = any (λ q. q == p) ps

-- `set.remove(p)`.
unfoldable pub remove : ℕ → List ℕ → List ℕ
remove p = retain (λ q. not (q == p))

-- `for p in ports { set.remove(p) }`.
unfoldable pub remove_all : List ℕ → List ℕ → List ℕ
unfolding remove
remove_all [] set = set
remove_all (p ∷ ps) set = remove_all ps (remove p set)

-- A round of the loop in `alloc_ports`.
unfoldable pub attempt : ℕ → ℕ → List ℕ → Attempt → List ℕ → Start × List ℕ
unfolding contains_port
attempt n rounds chosen failed set = (ended, set)
attempt n rounds chosen (bound p) set =
    if contains_port chosen p || contains_port set p
    then (asking n rounds chosen, set)
    else (asking n rounds (chosen ++ p ∷ []), p ∷ set)

-- One step of a start: a round, the end of the loop, or the drop of the lease. The set of the ports in
-- use is what they share.
unfoldable pub lease_step : Attempt → Start → List ℕ → Start × List ℕ
unfolding remove_all attempt
lease_step a (asking n rounds chosen) set =
    if leb n (length chosen)
    then (leased chosen, set)
    else elim rounds [ zero ↦ (ended, remove_all chosen set) | suc k ↦ attempt n k chosen a set ]
lease_step a (leased ps) set = (ended, remove_all ps set)
lease_step a ended set = (ended, set)

-- `alloc_ports(n)` at its start.
abbrev pub alloc_ports : ℕ → Start
alloc_ports n = asking n attempts []
