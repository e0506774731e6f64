-- ===== src/Server/Engine/Batches/Aligned.antt =====
-- The results of the engine lie beside the nodes (server/src/engine.rs, server/src/lib.rs).
use mathlib.Core.Path.{ap, sym, ◌∙◌}
use mathlib.Core.List.{map-append}
use sub_hub.Common.{
  ℕ, zero, suc, ◌+◌, ◌^◌, ◌<◌, ◌≤◌, ◌≡◌, refl, ◌&&◌, Bool, true, false, not, Bool-cases, inl, inr,
  Option, none, some, List, [], ◌∷◌, ◌++◌, map, length, take, drop, every, is_some, Text, arith,
  take-append-drop, length-take-le, ◌>>=◌, if◌then◌else◌,
}
use sub_hub.Common.Float.{F64}
use sub_hub.Model.Proxy.{Proxy}
use sub_hub.SpeedTest.{Quotient}
use sub_hub.Resources.{Texts}
use sub_hub.Server.Engine.Config.{batch_names}
use sub_hub.Server.Engine.Config.Names.{Addressed, batch_names_total}
use sub_hub.Server.Engine.Probe.{EngineProbe, is_http_only}
use sub_hub.Server.Engine.Batches.{
  Poll, BatchWorld, World, batch_probe, batch_probes, defaults, probe_shared_batch, shared_from,
  probe_all_shared, probe_all, shared_batch_size, then_batch, launched, engine_ready,
  run_engine_passes, http_latencies, bandwidths,
}
use sub_hub.Server.Engine.Batches.Numbered.{
  comes_up, is_up, latency_at, latency_of, numbered, length-drop, numbered-append, numbered-drop,
  first_batch, later_batches,
}

no_bandwidths : List Proxy → List (Option (Option F64))
no_bandwidths = map λ p. none

-- The probes of the nodes have these latencies, and no bandwidth.
abbrev Gives : List Proxy → List EngineProbe → List (Option (Option ℕ)) → Type 0
Gives ps rs hs = (http_latencies rs ≡ hs) × (bandwidths rs ≡ no_bandwidths ps)

defaults-Gives : (ps : List Proxy) → Gives ps (defaults ps) (map (λ p. none) ps)
unfolding defaults http_latencies bandwidths no_bandwidths
defaults-Gives [] = (refl, refl)
defaults-Gives (p ∷ ps) =
    let (l, b) = defaults-Gives ps in (ap (λ t. none ∷ t) l, ap (λ t. none ∷ t) b)

engine_ready-comes_up : (polls : List Poll) → engine_ready polls ≡ comes_up polls
unfolding engine_ready comes_up
engine_ready-comes_up [] = refl
engine_ready-comes_up (p ∷ polls) = ground (arith, engine_ready-comes_up polls)

launched-is_up :
    (w : BatchWorld)
    → is_up w ≡ (w.launch.ports && (launched w.launch && engine_ready w.controller))
unfolding is_up launched
launched-is_up w =
    rw (engine_ready-comes_up w.launch.mixed_port, engine_ready-comes_up w.controller)
      (ground arith)

-- Nothing is measured by a process that does not come up.
down :
    (w : BatchWorld) (i : ℕ) (ps : List Proxy)
    → is_up w ≡ false
    → numbered (latency_at w) i ps ≡ map (λ p. none) ps
unfolding numbered latency_at
down w i [] h = refl
down w i (p ∷ ps) h = rw h (ap (λ t. none ∷ t) (down w (suc i) ps h))

-- Nor of nodes without a name in the configuration.
nameless :
    (w : BatchWorld) (i : ℕ) (used : List Text) (ps : List Proxy) (ns : List (Option Text))
    → Addressed used ps ns
    → every (λ n. not (is_some n)) ns ≡ true
    → numbered (latency_at w) i ps ≡ map (λ p. none) ps
unfolding numbered latency_at
nameless w i used [] [] a h = refl
nameless w i used (p ∷ ps) (some n ∷ ns) a h = cc
nameless w i used (p ∷ ps) (none ∷ ns) (runs, rest) h =
    let here : latency_at w i p ≡ none = ground (arith, runs) in
    cc (here, nameless w (suc i) used ps ns rest h)
nameless w i used [] (n ∷ ns) a h = elim a [ ]
nameless w i used (p ∷ ps) [] a h = elim a [ ]

batch_probes-Gives :
    (w : BatchWorld) (i : ℕ) (used : List Text) (ps : List Proxy) (ns : List (Option Text))
    → is_up w ≡ true
    → Addressed used ps ns
    → Gives ps (batch_probes w i ns) (numbered (latency_at w) i ps)
unfolding batch_probes batch_probe numbered latency_at http_latencies bandwidths no_bandwidths
batch_probes-Gives w i used [] [] up a = (refl, refl)
batch_probes-Gives w i used (p ∷ ps) (some n ∷ ns) up (runs, fresh, own, rest) =
    let (l, b) = batch_probes-Gives w (suc i) (n ∷ used) ps ns up rest in
    (ground (arith, up, runs, l), ground (arith, b))
batch_probes-Gives w i used (p ∷ ps) (none ∷ ns) up (runs, rest) =
    let (l, b) = batch_probes-Gives w (suc i) used ps ns up rest in
    (ground (arith, up, runs, l), ground (arith, b))
batch_probes-Gives w i used [] (n ∷ ns) up a = elim a [ ]
batch_probes-Gives w i used (p ∷ ps) [] up a = elim a [ ]

defaults_instead :
    (ps : List Proxy) (hs : List (Option (Option ℕ)))
    → hs ≡ map (λ p. none) ps
    → Gives ps (defaults ps) hs
defaults_instead ps hs e = let (l, b) = defaults-Gives ps in (l ∙ sym e, b)

if_some :
    (b : Bool) (rs ss : List EngineProbe)
    → (if b then some rs else some ss) ≡ some (if b then rs else ss)
if_some true rs ss = refl
if_some false rs ss = refl

if-Gives :
    (b : Bool) (ps : List Proxy) (rs ss : List EngineProbe) (hs : List (Option (Option ℕ)))
    → (b ≡ true → Gives ps rs hs)
    → (b ≡ false → Gives ps ss hs)
    → Gives ps (if b then rs else ss) hs
if-Gives true ps rs ss hs f g = f refl
if-Gives false ps rs ss hs f g = g refl

-- The results of a batch whose names were found.
named_batch : BatchWorld → List Proxy → List (Option Text) → List EngineProbe
named_batch w ps ns =
    if w.launch.ports
    then (if every (λ n. not (is_some n)) ns
        then defaults ps
        else if launched w.launch && engine_ready w.controller
        then batch_probes w 0 ns
        else defaults ps)
    else defaults ps

probe_shared_batch-named_batch :
    (w : BatchWorld) (ps : List Proxy) (ns : List (Option Text))
    → batch_names [] ps ≡ some ns
    → probe_shared_batch w ps ≡ some (named_batch w ps ns)
unfolding probe_shared_batch named_batch
probe_shared_batch-named_batch w ps ns e =
    rw (e, probe_shared_batch) (if_some w.launch.ports _ (defaults ps))

named_batch-Gives :
    (w : BatchWorld) (ps : List Proxy) (ns : List (Option Text))
    → Addressed [] ps ns
    → Gives ps (named_batch w ps ns) (numbered (latency_at w) 0 ps)
unfolding named_batch
named_batch-Gives w ps ns addressed =
    if-Gives w.launch.ports ps _ _ _
      (λ ports.
        if-Gives (every (λ n. not (is_some n)) ns) ps _ _ _
          (λ no_names. defaults_instead ps _ (nameless w 0 [] ps ns addressed no_names))
          (λ names.
            if-Gives (launched w.launch && engine_ready w.controller) ps _ _ _
              (λ up.
                batch_probes-Gives w 0 [] ps ns (launched-is_up w ∙ both w.launch.ports _ ports up)
                  addressed)
              (λ fails.
                defaults_instead ps _
                  (down w 0 ps (launched-is_up w ∙ second w.launch.ports _ fails)))))
      (λ closed.
        defaults_instead ps _ (down w 0 ps (launched-is_up w ∙ first w.launch.ports _ closed)))
  where
    both : (a b : Bool) → a ≡ true → b ≡ true → (a && b) ≡ true
    both a b h k = ground arith

    first : (a b : Bool) → a ≡ false → (a && b) ≡ false
    first a b h = ground arith

    second : (a b : Bool) → b ≡ false → (a && b) ≡ false
    second a b h = ground arith

probe_shared_batch-Gives :
    (w : BatchWorld) (ps : List Proxy)
    → length ps + 3 < 2 ^ 31
    → (rs : List EngineProbe) × (probe_shared_batch w ps ≡ some rs)
      × Gives ps rs (numbered (latency_at w) 0 ps)
probe_shared_batch-Gives w ps small =
    let (ns, es, addressed) = batch_names_total ps small in
    (
      named_batch w ps ns,
      probe_shared_batch-named_batch w ps ns es,
      named_batch-Gives w ps ns addressed,
    )

append-Gives :
    (ps qs : List Proxy) (rs ss : List EngineProbe) (hs ks : List (Option (Option ℕ)))
    → Gives ps rs hs
    → Gives qs ss ks
    → Gives (ps ++ qs) (rs ++ ss) (hs ++ ks)
unfolding http_latencies bandwidths no_bandwidths
append-Gives ps qs rs ss hs ks (l, b) (m, c) = (
  map-append (λ r. r.http_latency) rs ss ∙ cc (l, m),
  map-append (λ r. r.bandwidth) rs ss ∙ cc (b, c) ∙ sym (map-append (λ p. none) ps qs),
)

empty-Gives : (worlds : ℕ → BatchWorld) → Gives [] [] (numbered (latency_of worlds) 0 [])
unfolding numbered http_latencies bandwidths no_bandwidths
empty-Gives worlds = (refl, refl)

shared_from-Gives :
    (f : ℕ) (worlds : ℕ → BatchWorld) (ps : List Proxy)
    → length ps ≤ f
    → (rs : List EngineProbe) × (shared_from f worlds ps ≡ some rs)
      × Gives ps rs (numbered (latency_of worlds) 0 ps)
unfolding shared_from
shared_from-Gives f worlds [] enough = ([], refl, empty-Gives worlds)
shared_from-Gives zero worlds (p ∷ ps) enough = absurd (omega arith)
shared_from-Gives (suc f) worlds (p ∷ ps) enough =
    let batch = take shared_batch_size (p ∷ ps) in
    let others = drop shared_batch_size (p ∷ ps) in
    let all = latency_of worlds in
    let small = length-take-le shared_batch_size (p ∷ ps) in
    let (rs, e, h) = probe_shared_batch-Gives (worlds 0) batch (omega (arith, small)) in
    let (ss, es, k) =
      shared_from-Gives f (λ b. worlds (suc b)) others
        (omega (arith, length-drop shared_batch_size (p ∷ ps))) in
    let one : numbered (latency_at (worlds 0)) 0 batch ≡ numbered all 0 batch =
      first_batch worlds batch small in
    let two : numbered (latency_of (λ b. worlds (suc b))) 0 others
        ≡ numbered all (length batch + 0) others =
      later_batches worlds others ∙ sym (numbered-drop all 100 0 (p ∷ ps)) in
    let joined : numbered all 0 batch ++ numbered all (length batch + 0) others
        ≡ numbered all 0 (p ∷ ps) =
      sym (numbered-append all 0 batch others)
      ∙ ap (numbered all 0) (take-append-drop shared_batch_size (p ∷ ps)) in
    let (l, b) = append-Gives batch others rs ss _ _ h k in
    (
      rs ++ ss,
      rw (e, es, shared_from, then_batch) refl,
      (
        l ∙ cc (one, two) ∙ joined,
        b ∙ ap no_bandwidths (take-append-drop shared_batch_size (p ∷ ps)),
      ),
    )

-- A round of the speed test comes to an end and has one latency for each node, in their order. With
-- the engine configured and its binary there, that of node `j` is the delay that number `j % 100` of
-- batch `j / 100` gets, if the process of the batch comes up, the node can be run and its task ends,
-- and none otherwise; without them no node has a latency. No node has a bandwidth.
pub run_engine_passes-aligned :
    (t : Texts) (divide : Quotient) (engine_configured : Bool) (w : World) (ps : List Proxy)
    → run_engine_passes t divide engine_configured w ps
      ≡ some (
        (if engine_configured && w.bin_exists
            then numbered (latency_of w.batches) 0 ps
            else map (λ p. none) ps),
        map (λ p. none) ps,
      )
unfolding run_engine_passes probe_all probe_all_shared is_http_only no_bandwidths
run_engine_passes-aligned t divide false w ps = refl
run_engine_passes-aligned t divide true w ps = elim (Bool-cases w.bin_exists) [
  | inl there ↦
      let (rs, e, (l, b)) = shared_from-Gives (length ps) w.batches ps (omega arith) in
      rw (there, e, l, b, ◌>>=◌) refl
  | inr missing ↦ let (l, b) = defaults-Gives ps in rw (missing, l, b) refl
]
