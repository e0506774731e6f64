-- ===== src/Server/Engine/Batches/Numbered.antt =====
-- The latency that each node should have after a round of the engine, by its number
-- (server/src/engine.rs), and how the numbers run over the batches.
use mathlib.Core.Path.{ap, ◌∙◌}
use sub_hub.Common.{
  ℕ, zero, suc, ◌+◌, ◌-◌, ◌/◌, ◌%◌, ◌<◌, ◌≤◌, ◌≡◌, refl, ◌&&◌, ◌||◌, Bool, false, not, Option, none,
  some, List, [], ◌∷◌, ◌++◌, length, take, drop, arith, if◌then◌else◌,
}
use sub_hub.Model.Proxy.{Proxy, is_exportable}
use sub_hub.Server.Engine.Probe.{delay_via_api}
use sub_hub.Server.Engine.Batches.{Poll, BatchWorld}

-- A poll finds the port accepting before one finds the process ended.
unfoldable pub comes_up : List Poll → Bool
comes_up [] = false
comes_up (p ∷ polls) = not p.exited && (p.accepts || comes_up polls)

-- Every step of the start of the process succeeds.
unfoldable pub is_up : BatchWorld → Bool
is_up w =
    w.launch.ports
    && w.launch.config_file
    && w.launch.spawned
    && comes_up w.launch.mixed_port
    && w.launch.client
    && comes_up w.controller

-- The latency of a node by its number in the batch.
unfoldable pub latency_at : BatchWorld → ℕ → Proxy → Option (Option ℕ)
latency_at w i p =
    if is_up w && (is_exportable p && w.task_ends i)
    then some (delay_via_api (w.delays i))
    else none

-- The latency of a node by its number among all: a batch has 100 nodes.
unfoldable pub latency_of : (ℕ → BatchWorld) → ℕ → Proxy → Option (Option ℕ)
latency_of worlds j p = latency_at (worlds (j / 100)) (j % 100) p

-- What is said of each node, by the numbers from the given one on.
unfoldable pub numbered :
    (ℕ → Proxy → Option (Option ℕ)) → ℕ → List Proxy → List (Option (Option ℕ))
numbered f j [] = []
numbered f j (p ∷ ps) = f j p ∷ numbered f (suc j) ps

pub length-drop : (n : ℕ) (ps : List Proxy) → length (drop n ps) ≡ length ps - n
length-drop zero ps = omega arith
length-drop (suc n) [] = omega arith
length-drop (suc n) (p ∷ ps) = omega (arith, length-drop n ps)

pub numbered-append :
    (f : ℕ → Proxy → Option (Option ℕ)) (j : ℕ) (ps qs : List Proxy)
    → numbered f j (ps ++ qs) ≡ numbered f j ps ++ numbered f (length ps + j) qs
unfolding numbered
numbered-append f j [] qs = ap (λ n. numbered f n qs) (omega arith)
numbered-append f j (p ∷ ps) qs =
    ap (λ t. f j p ∷ t)
      (numbered-append f (suc j) ps qs
        ∙ ap (λ n. numbered f (suc j) ps ++ numbered f n qs) (omega arith))

-- Where fewer than `n` nodes are taken, none is left.
pub numbered-drop :
    (f : ℕ → Proxy → Option (Option ℕ)) (n j : ℕ) (ps : List Proxy)
    → numbered f (length (take n ps) + j) (drop n ps) ≡ numbered f (n + j) (drop n ps)
unfolding numbered
numbered-drop f zero j ps = refl
numbered-drop f (suc n) j [] = refl
numbered-drop f (suc n) j (p ∷ ps) =
    ap (λ m. numbered f m (drop n ps)) (omega arith)
    ∙ numbered-drop f n (suc j) ps
    ∙ ap (λ m. numbered f m (drop n ps)) (omega arith)

numbered-same :
    (f g : ℕ → Proxy → Option (Option ℕ)) (j k n : ℕ) (ps : List Proxy)
    → ((i : ℕ) (p : Proxy) → i < n → f (i + j) p ≡ g (i + k) p)
    → length ps ≤ n
    → numbered f j ps ≡ numbered g k ps
unfolding numbered
numbered-same f g j k n [] h small = refl
numbered-same f g j k n (p ∷ ps) h small =
    let here : f j p ≡ g k p = rw (zero_add j, zero_add k) at (h 0 p (omega (arith, small))) in
    cc (
      here,
      numbered-same f g (suc j) (suc k) (n - 1) ps
          (λ i q l. rw (add_one i j, add_one i k) (h (suc i) q (omega arith)))
          (omega (arith, small)),
    )
  where
    zero_add : (x : ℕ) → 0 + x ≡ x
    zero_add x = omega arith

    add_one : (i x : ℕ) → i + suc x ≡ suc i + x
    add_one i x = omega arith

pub first_batch :
    (worlds : ℕ → BatchWorld) (ps : List Proxy)
    → length ps ≤ 100
    → numbered (latency_at (worlds 0)) 0 ps ≡ numbered (latency_of worlds) 0 ps
unfolding latency_of
first_batch worlds ps small =
    numbered-same (latency_at (worlds 0)) (latency_of worlds) 0 0 100 ps
      (λ i p l.
        let q : (i + 0) / 100 ≡ 0 = omega arith in
        let r : (i + 0) % 100 ≡ i + 0 = omega arith in rw (q, r) refl)
      small

pub later_batches :
    (worlds : ℕ → BatchWorld) (ps : List Proxy)
    → numbered (latency_of (λ b. worlds (suc b))) 0 ps ≡ numbered (latency_of worlds) 100 ps
unfolding latency_of
later_batches worlds ps =
    numbered-same (latency_of (λ b. worlds (suc b))) (latency_of worlds) 0 100 (length ps) ps
      (λ i p l.
        let q : (i + 100) / 100 ≡ suc ((i + 0) / 100) = omega arith in
        let r : (i + 100) % 100 ≡ (i + 0) % 100 = omega arith in rw (q, r) refl)
      (omega arith)
