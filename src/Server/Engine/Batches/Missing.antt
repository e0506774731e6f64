-- ===== src/Server/Engine/Batches/Missing.antt =====
-- A configured engine that cannot run, up to the stored nodes (server/src/engine.rs, server/src/lib.rs).
use mathlib.Core.Path.{subst}
use sub_hub.Common.{
  ℕ, suc, ◌≡◌, refl, true, false, Option-cases, inl, inr, Option, none, some, List, [], ◌∷◌, map,
  Text, All, arith, zero, sym, ◌∙◌, ap,
}
use sub_hub.Common.Float.{F64}
use sub_hub.Common.Lookup.{lookup_last}
use sub_hub.Model.Proxy.{Proxy}
use sub_hub.Model.Fingerprint.{fingerprint}
use sub_hub.Resources.{Texts}
use sub_hub.SpeedTest.{Quotient, SpeedTestResult}
use sub_hub.Server.Engine.Probe.{is_http_only}
use sub_hub.Server.Engine.Batches.{
  World, run_engine_passes, probe_all, probe_all_shared, defaults, http_latencies, bandwidths,
}
use sub_hub.Server.Persist.{
  Settings, PersistRow, rows, row, indexed, at, update_proxy, update_node, forget, tcp_only,
}

module _ {A : Type 0} where
  abbrev no_results : List Proxy → List (Option (Option A))
  no_results = map λ p. none

  at-no_results : (ps : List Proxy) (i : Option ℕ) → at (no_results ps) i ≡ none
  at-no_results ps none = refl
  at-no_results [] (some i) = refl
  at-no_results (p ∷ ps) (some zero) = refl
  at-no_results (p ∷ ps) (some (suc i)) = at-no_results ps (some i)

abbrev Unmeasured : Text × PersistRow → Type 0
Unmeasured (k, w) = w.ran_engine ≡ false

row-unmeasured :
    (ps : List Proxy) (i : Option ℕ) (r : SpeedTestResult)
    → (row (no_results ps) (no_results ps) i r).ran_engine ≡ false
unfolding row
row-unmeasured ps i r = rw (at-no_results {A = ℕ} ps i, at-no_results {A = F64} ps i) refl

rows-Unmeasured :
    (qs ps : List Proxy) (tcp : List SpeedTestResult)
    → All Unmeasured (rows (no_results ps) (no_results ps) qs tcp)
unfolding rows
rows-Unmeasured qs ps [] = tt
rows-Unmeasured qs ps (r ∷ tcp) =
    (row-unmeasured ps (lookup_last r.fingerprint (indexed 0 qs)) r, rows-Unmeasured qs ps tcp)

lookup_last-Unmeasured :
    (k : Text) (m : List (Text × PersistRow)) (w : PersistRow)
    → All Unmeasured m
    → lookup_last k m ≡ some w
    → w.ran_engine ≡ false
unfolding lookup_last
lookup_last-Unmeasured k [] w h e = cc
lookup_last-Unmeasured k ((j, v) ∷ m) w (h, hs) e = elim (Option-cases (lookup_last k m)) [
  | inl miss ↦ ground (arith)
  | inr (v', hit) ↦ lookup_last-Unmeasured k m w hs (ground arith)
]

update_node-unmeasured :
    (s : Settings) (w : PersistRow) (p : Proxy)
    → s.engine_configured ≡ true
    → w.ran_engine ≡ false
    → (update_node s w p).available ≡ some true
    → p.available ≡ some true
unfolding update_node forget tcp_only
update_node-unmeasured s w p configured unmeasured h = ground arith

unmeasured-promotes_none :
    (s : Settings) (ps : List Proxy) (tcp : List SpeedTestResult) (p : Proxy)
    → s.engine_configured ≡ true
    → (update_proxy s (rows (no_results ps) (no_results ps) ps tcp) p).available ≡ some true
    → p.available ≡ some true
unfolding update_proxy
unmeasured-promotes_none s ps tcp p configured up =
    elim (Option-cases (lookup_last (fingerprint p) by_fp)) [
      | inl miss ↦ rw (miss, update_proxy) at up
      | inr (w, hit) ↦
          update_node-unmeasured s w p configured
            (lookup_last-Unmeasured (fingerprint p) by_fp w (rows-Unmeasured ps ps tcp) hit)
            (rw (hit, update_proxy) at up)
    ]
  where
    by_fp : List (Text × PersistRow)
    by_fp = rows (no_results ps) (no_results ps) ps tcp

default_latencies :
    (ps : List Proxy)
    → (http_latencies (defaults ps) ≡ no_results ps) × (bandwidths (defaults ps) ≡ no_results ps)
unfolding http_latencies bandwidths defaults
default_latencies [] = (refl, refl)
default_latencies (p ∷ ps) =
    let (l, b) = default_latencies ps in (ap (λ xs. none ∷ xs) l, ap (λ xs. none ∷ xs) b)

missing_engine-passes :
    (t : Texts) (divide : Quotient) (w : World) (ps : List Proxy)
    → w.bin_exists ≡ false
    → run_engine_passes t divide true w ps ≡ some (no_results ps, no_results ps)
unfolding run_engine_passes probe_all probe_all_shared is_http_only
missing_engine-passes t divide w ps missing =
    let (l, b) = default_latencies ps in rw (missing, l, b) refl

components :
    {A B : Type 0} (a a' : A) (b b' : B)
    → ◌≡◌ {A = Option (A × B)} (some (a, b)) (some (a', b'))
    → (a ≡ a') × (b ≡ b')
components a a' b b' e = (cc, cc)

-- While an engine is configured whose program is not there, the results of a round make no stored
-- node available that was not, whatever the TCP test says.
pub missing_engine-promotes_none :
    (t : Texts) (divide : Quotient) (w : World) (s : Settings) (ps : List Proxy)
    (tcp : List SpeedTestResult) (h : List (Option (Option ℕ))) (b : List (Option (Option F64)))
    (p : Proxy)
    → s.engine_configured ≡ true
    → w.bin_exists ≡ false
    → run_engine_passes t divide s.engine_configured w ps ≡ some (h, b)
    → (update_proxy s (rows h b ps tcp) p).available ≡ some true
    → p.available ≡ some true
missing_engine-promotes_none t divide w s ps tcp h b p configured missing ran up =
    let (latencies, widths) = components h (no_results ps) b (no_results ps) (
      sym ran
      ∙ ap (λ c. run_engine_passes t divide c w ps) configured
      ∙ missing_engine-passes t divide w ps missing) in
    unmeasured-promotes_none s ps tcp p configured (
      subst (λ x. (update_proxy s (rows x (no_results ps) ps tcp) p).available ≡ some true)
        latencies
        (subst (λ y. (update_proxy s (rows h y ps tcp) p).available ≡ some true) widths up))
