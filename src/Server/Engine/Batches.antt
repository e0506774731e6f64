-- ===== src/Server/Engine/Batches.antt =====
-- Which probes run for which node (`probe_one`, `probe_all`, `probe_all_shared` and
-- `probe_shared_batch` in server/src/engine.rs, `run_engine_passes` in server/src/lib.rs).
pub mod Numbered
pub mod Aligned
pub mod Missing
use sub_hub.Common.{
  ℕ, zero, suc, ◌+◌, Bool, true, false, not, ◌&&◌, Option, none, some, List, [], ◌∷◌, ◌++◌, map,
  Text, length, take, drop, every, is_some, if◌then◌else◌, ◌>>=◌,
}
use sub_hub.Common.Float.{F64}
use sub_hub.Model.Proxy.{Proxy, ProxyUnlock, is_exportable}
use sub_hub.Model.Fingerprint.{fingerprint}
use sub_hub.SpeedTest.{Quotient}
use sub_hub.Resources.{Texts}
use sub_hub.Server.Engine.Config.{batch_names}
use sub_hub.Server.Engine.Probe.{
  EngineProbe, default_probe, ProbePlan, is_http_only, Reply, DelayReply, Download, PageReply,
  latency_via, delay_via_api, bandwidth_via, country_via, unlock_via,
}

-- A poll before the deadline: whether the process has ended, and whether its port accepts.
pub record Poll : Type 0 where
  pub exited : Bool
  pub accepts : Bool

unfoldable pub engine_ready : List Poll → Bool
engine_ready [] = false
engine_ready (p ∷ polls) =
    if p.exited then false else if p.accepts then true else engine_ready polls

-- Which steps of the start of a process succeed, with the polls of its proxy port.
pub record Launch : Type 0 where
  pub ports : Bool
  pub config_file : Bool
  pub spawned : Bool
  pub mixed_port : List Poll
  pub client : Bool

unfoldable pub launched : Launch → Bool
unfolding engine_ready
launched l = l.ports && l.config_file && l.spawned && engine_ready l.mixed_port && l.client

-- What the world says to a process for one node.
pub record NodeWorld : Type 0 where
  pub launch : Launch
  pub replies : ℕ → Reply
  pub downloads : Text → ℕ → Download
  pub bodies : Text → Option Text
  pub pages : Text → PageReply
  pub task_ends : Bool

-- What it says to a process for a batch: the polls of its second port, the delays by the
-- number of the node and of the attempt, and whether a task ends.
pub record BatchWorld : Type 0 where
  pub launch : Launch
  pub controller : List Poll
  pub delays : ℕ → ℕ → DelayReply
  pub task_ends : ℕ → Bool

-- What the callbacks are told.
pub data Progress : Type 0 where
  http_done : Text → Text → Text → Option ℕ → Progress
  bandwidth_done : Text → Progress

abbrev pub shared_batch_size : ℕ
shared_batch_size = 100

-- The probes that a plan asks for, through a running engine.
unfoldable pub planned : Texts → Quotient → ProbePlan → NodeWorld → EngineProbe
planned t divide plan w = record {
  http_latency = if plan.http_latency then some (latency_via w.replies) else none;
  bandwidth = if plan.bandwidth then some (bandwidth_via divide w.downloads) else none;
  country = if plan.country then country_via t w.bodies else none;
  unlock = record { services = if plan.unlock then unlock_via t w.pages else [] };
}

-- `with_engine` around the probes: a node that the engine cannot run, or an engine that does not start,
-- gives the default.
unfoldable pub probe_one : Texts → Quotient → ProbePlan → NodeWorld → Proxy → EngineProbe
unfolding launched planned
probe_one t divide plan w p =
    if is_exportable p && launched w.launch then planned t divide plan w else default_probe

-- What `probe_one` tells the callbacks.
unfoldable pub node_progress : ProbePlan → NodeWorld → Proxy → List Progress
unfolding launched
node_progress plan w p =
    if is_exportable p && launched w.launch
    then (if plan.http_latency
        then http_done (fingerprint p) p.name p.server (latency_via w.replies) ∷ []
        else [])
      ++ (if plan.bandwidth then bandwidth_done p.name ∷ [] else [])
    else []

-- The result of a node of the batch, by its name in the configuration.
unfoldable pub batch_probe : BatchWorld → ℕ → Option Text → EngineProbe
batch_probe w i none = default_probe
batch_probe w i (some n) =
    if w.task_ends i
    then record default_probe { http_latency = some (delay_via_api (w.delays i)) }
    else default_probe

unfoldable pub batch_probes : BatchWorld → ℕ → List (Option Text) → List EngineProbe
unfolding batch_probe
batch_probes w i [] = []
batch_probes w i (n ∷ ns) = batch_probe w i n ∷ batch_probes w (suc i) ns

unfoldable pub defaults : List Proxy → List EngineProbe
defaults = map (λ p. default_probe)

-- No result would mean that the fuel of a name ran out.
unfoldable pub probe_shared_batch : BatchWorld → List Proxy → Option (List EngineProbe)
unfolding batch_probes defaults launched engine_ready
probe_shared_batch w proxies =
    if w.launch.ports
    then (batch_names [] proxies >>= λ names. some (
        if every (λ n. not (is_some n)) names
        then defaults proxies
        else if launched w.launch && engine_ready w.controller
        then batch_probes w 0 names
        else defaults proxies))
    else some (defaults proxies)

abbrev pub then_batch :
    Option (List EngineProbe) → Option (List EngineProbe) → Option (List EngineProbe)
then_batch none r = none
then_batch (some out) none = none
then_batch (some out) (some rest) = some (out ++ rest)

-- The batches from the given number on. Each has a node at least, so that there are no more rounds than nodes.
unfoldable pub shared_from : ℕ → (ℕ → BatchWorld) → List Proxy → Option (List EngineProbe)
unfolding probe_shared_batch
shared_from f worlds [] = some []
shared_from zero worlds (p ∷ ps) = none
shared_from (suc f) worlds (p ∷ ps) =
    then_batch (probe_shared_batch (worlds 0) (take shared_batch_size (p ∷ ps)))
      (shared_from f (λ b. worlds (suc b)) (drop shared_batch_size (p ∷ ps)))

unfoldable pub probe_all_shared : Bool → (ℕ → BatchWorld) → List Proxy → Option (List EngineProbe)
unfolding shared_from defaults
probe_all_shared bin_exists worlds proxies =
    if bin_exists then shared_from (length proxies) worlds proxies else some (defaults proxies)

-- A process for each node.
unfoldable pub probe_each :
    Texts → Quotient → ProbePlan → (ℕ → NodeWorld) → List Proxy → List EngineProbe
unfolding probe_one
probe_each t divide plan worlds [] = []
probe_each t divide plan worlds (p ∷ ps) =
    (if (worlds 0).task_ends then probe_one t divide plan (worlds 0) p else default_probe)
    ∷ probe_each t divide plan (λ i. worlds (suc i)) ps

-- What the world says to a call of `probe_all`.
pub record World : Type 0 where
  pub bin_exists : Bool
  pub nodes : ℕ → NodeWorld
  pub batches : ℕ → BatchWorld

unfoldable pub probe_all :
    Texts → Quotient → ProbePlan → World → List Proxy → Option (List EngineProbe)
unfolding probe_all_shared probe_each defaults is_http_only
probe_all t divide plan w proxies =
    if is_http_only plan
    then probe_all_shared w.bin_exists w.batches proxies
    else some (if w.bin_exists then probe_each t divide plan w.nodes proxies else defaults proxies)

-- `detect_outbound_country` and `detect_unlock`.
abbrev pub country_plan : ProbePlan
country_plan = record { http_latency = false; bandwidth = false; country = true; unlock = false }

abbrev pub unlock_plan : ProbePlan
unlock_plan = record { http_latency = false; bandwidth = false; country = false; unlock = true }

unfoldable pub detect_outbound_country :
    Texts → Quotient → World → List Proxy → Option (List (Option Text))
unfolding probe_all
detect_outbound_country t divide w proxies =
    probe_all t divide country_plan w proxies >>= λ rs. some (map (λ r. r.country) rs)

unfoldable pub detect_unlock : Texts → Quotient → World → List Proxy → Option (List ProxyUnlock)
unfolding probe_all
detect_unlock t divide w proxies =
    probe_all t divide unlock_plan w proxies >>= λ rs. some (map (λ r. r.unlock) rs)

-- The plan of the speed test.
abbrev pub speed_plan : ProbePlan
speed_plan = record { http_latency = true; bandwidth = false; country = false; unlock = false }

unfoldable pub http_latencies : List EngineProbe → List (Option (Option ℕ))
http_latencies = map λ r. r.http_latency

unfoldable pub bandwidths : List EngineProbe → List (Option (Option F64))
bandwidths = map λ r. r.bandwidth

-- With no engine configured nothing is probed.
unfoldable pub run_engine_passes :
    Texts
    → Quotient
    → Bool
    → World
    → List Proxy
    → Option (List (Option (Option ℕ)) × List (Option (Option F64)))
unfolding probe_all http_latencies bandwidths
run_engine_passes t divide engine_configured w proxies =
    if engine_configured
    then (probe_all t divide speed_plan w proxies >>= λ rs. some (http_latencies rs, bandwidths rs))
    else some (map (λ p. none) proxies, map (λ p. none) proxies)
