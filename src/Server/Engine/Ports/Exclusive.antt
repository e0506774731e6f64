-- ===== src/Server/Engine/Ports/Exclusive.antt =====
-- No port is leased twice (server/src/engine.rs).
use sub_hub.Common.{
  ℕ, zero, suc, ◌+◌, ◌≤◌, ◌≡◌, refl, Bool, true, false, ◌||◌, List, [], ◌∷◌, length, leb, ◌==◌,
  if◌then◌else◌, arith, map, ◌++◌, ==_iff, Bool-cases, inl, inr,
}
use sub_hub.Common.Workers.{run, total, run-keeps}
use sub_hub.Server.Engine.Ports.{
  Attempt, bound, failed, Start, asking, leased, ended, contains_port, remove, remove_all, attempt,
  lease_step, alloc_ports,
}

module _ (port : ℕ) where
  unfoldable pub count_port : List ℕ → ℕ
  count_port [] = 0
  count_port (p ∷ ps) = (if p == port then 1 else 0) + count_port ps

  -- How often a start holds the port.
  unfoldable pub held : Start → ℕ
  unfolding count_port
  held (asking n k chosen) = count_port chosen
  held (leased ps) = count_port ps
  held ended = 0

  -- One for a port in use.
  unfoldable pub registered : List ℕ → ℕ
  unfolding contains_port
  registered set = if contains_port set port then 1 else 0

  abbrev Covered : ℕ → List ℕ → Type 0
  Covered n set = n ≤ registered set

  pub contains-remove :
      (p : ℕ) (set : List ℕ)
      → contains_port (remove p set) port ≡ (if p == port then false else contains_port set port)
  unfolding contains_port remove
  contains-remove p [] = ground arith
  contains-remove p (q ∷ set) = ground (arith, contains-remove p set)

  registered-remove_all :
      (ps set : List ℕ) (rest : ℕ)
      → count_port ps + rest ≤ registered set
      → rest ≤ registered (remove_all ps set)
  unfolding count_port registered remove_all
  registered-remove_all [] set rest h = omega arith
  registered-remove_all (p ∷ ps) set rest h =
      registered-remove_all ps (remove p set) rest (ground (arith, contains-remove p set))

  pub count_port-append : (ps qs : List ℕ) → count_port (ps ++ qs) ≡ count_port ps + count_port qs
  unfolding count_port
  count_port-append [] qs = omega arith
  count_port-append (p ∷ ps) qs = omega (arith, count_port-append ps qs)

  pub registered-cons :
      (p : ℕ) (set : List ℕ)
      → contains_port set p ≡ false
      → registered (p ∷ set) ≡ registered set + count_port (p ∷ [])
  unfolding registered contains_port count_port
  registered-cons p set e = elim (Bool-cases (p == port)) [
    | inl same ↦ rw (same) (ground (arith, ==_iff p port))
    | inr other ↦ rw (other, registered) (omega arith)
  ]

  attempt-Covered :
      (n k : ℕ) (chosen : List ℕ) (a : Attempt) (set : List ℕ) (rest : ℕ)
      → Covered (count_port chosen + rest) set
      → Covered (held (attempt n k chosen a set).0 + rest) (attempt n k chosen a set).1
  unfolding attempt held
  attempt-Covered n k chosen failed set rest h = omega arith
  attempt-Covered n k chosen (bound p) set rest h =
      elim (Bool-cases (contains_port chosen p || contains_port set p)) [
        | inl e ↦ rw (e, attempt, held) h
        | inr e ↦
            rw (e, attempt, held)
              (omega
                (arith, count_port-append chosen (p ∷ []), registered-cons p set (ground arith)))
      ]

  lease_step-Covered :
      (a : Attempt) (w : Start) (set : List ℕ) (rest : ℕ)
      → Covered (held w + rest) set
      → Covered (held (lease_step a w set).0 + rest) (lease_step a w set).1
  unfolding lease_step held
  lease_step-Covered a (asking n k chosen) set rest h = go (leb n (length chosen)) k
    where
      go :
          (b : Bool) (rounds : ℕ)
          → (let r : Start × List ℕ = if b then (leased chosen, set) else elim rounds [
            | zero ↦ (ended, remove_all chosen set)
            | suc j ↦ attempt n j chosen a set
          ] in
              Covered (held r.0 + rest) r.1)
      go true rounds = h
      go false zero = omega (arith, registered-remove_all chosen set rest h)
      go false (suc j) = attempt-Covered n j chosen a set rest h
  lease_step-Covered a (leased ps) set rest h = omega (arith, registered-remove_all ps set rest h)
  lease_step-Covered a ended set rest h = h

  pub registered-le-one : (set : List ℕ) → registered set ≤ 1
  unfolding registered
  registered-le-one set = ground arith

pub starts-held : (port : ℕ) (asked : List ℕ) → total (held port) (map alloc_ports asked) ≡ 0
unfolding total held count_port
starts-held port [] = refl
starts-held port (n ∷ asked) = omega (arith, starts-held port asked)

-- However the rounds of the starts and the returns of their leases are interleaved, and whatever
-- ports the system hands out, no port is ever held twice, neither by two starts nor within one
-- lease.
pub leases_exclusive :
    (schedule : List (ℕ × Attempt)) (asked : List ℕ) (port : ℕ)
    → total (held port) (run lease_step schedule (map alloc_ports asked) []).0 ≤ 1
leases_exclusive schedule asked port =
    let covered =
      run-keeps lease_step (held port) (Covered port) (lease_step-Covered port) schedule
        (map alloc_ports asked) [] (omega (arith, starts-held port asked)) in
    omega (arith, registered-le-one port (run lease_step schedule (map alloc_ports asked) []).1)
