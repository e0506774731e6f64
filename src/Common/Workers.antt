-- ===== src/Common/Workers.antt =====
-- Threads over a shared state: each makes atomic steps, in any order. What the world says to a step is
-- given with it.
use Prim.Native.Nat.{ℕ, zero, suc, ◌+◌}
use mathlib.Core.Path.{subst}
use mathlib.Core.List.{List, [], ◌∷◌}
use native.Mathlib.Omega.{arith}

module _ {A W S : Type 0} (work : A → W → S → W × S) where
  -- A step of the worker of the given number; nothing if there is none.
  unfoldable pub step : A → ℕ → List W → S → List W × S
  step a i [] s = ([], s)
  step a zero (w ∷ ws) s = let (w', s') = work a w s in (w' ∷ ws, s')
  step a (suc i) (w ∷ ws) s = let (ws', s') = step a i ws s in (w ∷ ws', s')

  -- The steps of a schedule: which worker, and what the world says to it.
  unfoldable pub run : List (ℕ × A) → List W → S → List W × S
  unfolding step
  run [] ws s = (ws, s)
  run ((i, a) ∷ is) ws s = let (ws', s') = step a i ws s in run is ws' s'

  -- A round in which each worker makes a step.
  unfoldable pub sweep : (ℕ → A) → List W → S → List W × S
  sweep a [] s = ([], s)
  sweep a (w ∷ ws) s =
      let (w', s') = work (a 0) w s in
      let (ws', s'') = sweep (λ i. a (suc i)) ws s' in (w' ∷ ws', s'')

  -- So many rounds.
  unfoldable pub sweeps : ℕ → (ℕ → ℕ → A) → List W → S → List W × S
  unfolding sweep
  sweeps zero a ws s = (ws, s)
  sweeps (suc n) a ws s = let (ws', s') = sweep (a 0) ws s in sweeps n (λ i. a (suc i)) ws' s'

-- The sum of a weight over the workers.
unfoldable pub total : {W : Type 0} → (W → ℕ) → List W → ℕ
total weight [] = 0
total weight (w ∷ ws) = weight w + total weight ws

-- A relation of the sum and the shared state that every step of one worker keeps, whatever the others
-- weigh, is kept by every schedule.
module _ {A W S : Type 0} (work : A → W → S → W × S) (weight : W → ℕ) (Inv : ℕ → S → Type 0)
    (keeps : (a : A) (w : W) (s : S) (rest : ℕ)
      → Inv (weight w + rest) s
      → Inv (weight (work a w s).0 + rest) (work a w s).1) where
  step-keeps :
      (a : A) (i : ℕ) (ws : List W) (s : S) (rest : ℕ)
      → Inv (total weight ws + rest) s
      → Inv (total weight (step work a i ws s).0 + rest) (step work a i ws s).1
  unfolding step total
  step-keeps a i [] s rest k = k
  step-keeps a zero (w ∷ ws) s rest k =
      subst (λ n. Inv n (work a w s).1) (omega arith)
        (keeps a w s (total weight ws + rest) (subst (λ n. Inv n s) (omega arith) k))
  step-keeps a (suc i) (w ∷ ws) s rest k =
      subst (λ n. Inv n (step work a i ws s).1) (omega arith)
        (step-keeps a i ws s (weight w + rest) (subst (λ n. Inv n s) (omega arith) k))

  pub run-keeps :
      (is : List (ℕ × A)) (ws : List W) (s : S)
      → Inv (total weight ws) s
      → Inv (total weight (run work is ws s).0) (run work is ws s).1
  unfolding run
  run-keeps [] ws s k = k
  run-keeps ((i, a) ∷ is) ws s k = run-keeps is (step work a i ws s).0 (step work a i ws s).1 (
      subst (λ n. Inv n (step work a i ws s).1) (omega arith)
        (step-keeps a i ws s 0 (subst (λ n. Inv n s) (omega arith) k)))
