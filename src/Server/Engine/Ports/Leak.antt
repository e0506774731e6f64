-- ===== src/Server/Engine/Ports/Leak.antt =====
-- A port that stays registered without a holder (`alloc_ports`, server/src/engine.rs).
use sub_hub.Common.{
  ℕ, suc, ◌+◌, ◌<◌, ◌≡◌, refl, Bool, true, false, ◌||◌, List, [], ◌∷◌, length, leb, map, ◌==◌,
  if◌then◌else◌, arith, zero, ◌∙◌, Bool-cases, inl, inr,
}
use sub_hub.Common.Workers.{run, total, run-keeps}
use sub_hub.Server.Engine.Ports.{
  Attempt, bound, failed, Start, asking, leased, ended, contains_port, remove, remove_all, attempt,
  lease_step, alloc_ports,
}
use sub_hub.Server.Engine.Ports.Exclusive.{
  count_port, held, registered, contains-remove, count_port-append, starts-held, registered-cons,
  registered-le-one,
}

module _ (port : ℕ) where
  -- Nobody holds the port, and it is registered.
  abbrev Orphan : ℕ → List ℕ → Type 0
  Orphan n set = (n ≡ 0) × (registered port set ≡ 1)

  registered-remove :
      (p : ℕ) (set : List ℕ)
      → (p == port) ≡ false
      → registered port (remove p set) ≡ registered port set
  unfolding registered
  registered-remove p set other = rw (contains-remove port p set, other) refl

  remove_all-other :
      (ps set : List ℕ)
      → count_port port ps ≡ 0
      → registered port (remove_all ps set) ≡ registered port set
  unfolding count_port remove_all
  remove_all-other [] set none_of = refl
  remove_all-other (p ∷ ps) set none_of = elim (Bool-cases (p == port)) [
    | inl same ↦ absurd (ground arith)
    | inr other ↦ remove_all-other ps (remove p set) (omega arith) ∙ registered-remove p set other
  ]

  attempt-Orphan :
      (n k : ℕ) (chosen : List ℕ) (a : Attempt) (set : List ℕ) (rest : ℕ)
      → Orphan (count_port port chosen + rest) set
      → Orphan (held port (attempt n k chosen a set).0 + rest) (attempt n k chosen a set).1
  unfolding attempt held
  attempt-Orphan n k chosen failed set rest o = (omega arith, o.1)
  attempt-Orphan n k chosen (bound p) set rest o =
      elim (Bool-cases (contains_port chosen p || contains_port set p)) [
        | inl e ↦ rw (e, attempt, held) o
        | inr e ↦
            let new_port : count_port port (p ∷ []) ≡ 0 = omega (
              arith,
              registered-cons port p set (ground arith),
              registered-le-one port (p ∷ set),
            ) in
            rw (e, attempt, held)
              (
                omega (arith, count_port-append port chosen (p ∷ []), new_port),
                omega (arith, new_port, registered-cons port p set (ground arith)),
              )
      ]

  lease_step-Orphan :
      (a : Attempt) (w : Start) (set : List ℕ) (rest : ℕ)
      → Orphan (held port w + rest) set
      → Orphan (held port (lease_step a w set).0 + rest) (lease_step a w set).1
  unfolding lease_step held
  lease_step-Orphan a (asking n k chosen) set rest o = go (leb n (length chosen)) k
    where
      go :
          (b : Bool) (rounds : ℕ)
          → (let r : Start × List ℕ = if b then (leased chosen, set) else elim rounds [
            | zero ↦ (ended, remove_all chosen set)
            | suc j ↦ attempt n j chosen a set
          ] in
              Orphan (held port r.0 + rest) r.1)
      go true rounds = o
      go false zero = (omega arith, remove_all-other chosen set (omega arith) ∙ o.1)
      go false (suc j) = attempt-Orphan n j chosen a set rest o
  lease_step-Orphan a (leased ps) set rest o =
      (omega arith, remove_all-other ps set (omega arith) ∙ o.1)
  lease_step-Orphan a ended set rest o = o

-- If a call fails while ports are missing, then a port that was chosen and is registered stays
-- registered for good and is never held again, however later starts go on: the early return does
-- not give it back.
pub lease_step-leaks :
    (n k : ℕ) (chosen set : List ℕ) (port : ℕ) (schedule : List (ℕ × Attempt)) (asked : List ℕ)
    → length chosen < n
    → 0 < count_port port chosen
    → contains_port set port ≡ true
    → ((lease_step failed (asking n (suc k) chosen) set).0 ≡ ended)
      × (total
            (held port)
            (run lease_step schedule
              (map alloc_ports asked)
              (lease_step failed (asking n (suc k) chosen) set).1).0
          ≡ 0)
      × (contains_port
            (run lease_step schedule
              (map alloc_ports asked)
              (lease_step failed (asking n (suc k) chosen) set).1).1
            port
          ≡ true)
unfolding lease_step attempt registered
lease_step-leaks n k chosen set port schedule asked short chosen_one there =
    let test : leb n (length chosen) ≡ false = ground arith in
    let (gone, stays) =
      run-keeps lease_step (held port) (Orphan port) (lease_step-Orphan port) schedule
        (map alloc_ports asked) set (starts-held port asked, rw there refl) in
    rw (test, lease_step) (refl, gone, ground arith)
