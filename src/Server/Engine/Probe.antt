-- ===== src/Server/Engine/Probe.antt =====
-- The probes through a running engine (server/src/engine.rs). What the network answers to each request
-- is given.
pub mod Verdict
use sub_hub.Common.{
  ℕ, zero, suc, ◌+◌, Bool, true, false, not, ◌&&◌, ◌||◌, Option, none, some, List, [], ◌∷◌, ◌++◌,
  map, Text, lit, length, take, drop, leb, ltb, every, is_empty, text_eq, get_elem?, is_some, ◌==◌,
  ◌>>=◌, if◌then◌else◌,
}
use sub_hub.Common.Float.{F64, float_lt, float_zero}
use sub_hub.Model.Json.{Json, get, as_u64}
use sub_hub.Model.Proxy.{Proxy, UnlockResult, ProxyUnlock, is_exportable}
use sub_hub.SpeedTest.{Quotient}
use sub_hub.Resources.{
  Texts, UnlockDetect, classify, extract_country, first_some, geo_channels, speed_download_urls,
  stream_services,
}
use sub_hub.Server.Engine.Config.{batch_names}

pub record EngineProbe : Type 0 where
  pub http_latency : Option (Option ℕ)
  pub bandwidth : Option (Option F64)
  pub country : Option Text
  pub unlock : ProxyUnlock

abbrev pub default_probe : EngineProbe
default_probe = record {
  http_latency = none;
  bandwidth = none;
  country = none;
  unlock = record { services = [] };
}

pub record ProbePlan : Type 0 where
  pub http_latency : Bool
  pub bandwidth : Bool
  pub country : Bool
  pub unlock : Bool

unfoldable pub is_http_only : ProbePlan → Bool
is_http_only plan = plan.http_latency && not plan.bandwidth && not plan.country && not plan.unlock

-- The status with the milliseconds that went by, if there was a response.
pub data Reply : Type 0 where
  response : ℕ → ℕ → Reply
  no_response : Reply

-- The rounds that are left, with the answers from the next one on.
unfoldable pub latency_from : ℕ → (ℕ → Reply) → Option ℕ
latency_from zero replies = none
latency_from (suc f) replies = elim (replies 0) [
  | no_response ↦ latency_from f (λ i. replies (suc i))
  | response code elapsed ↦
      let rest = latency_from f (λ i. replies (suc i)) in
      if leb 200 code && ltb code 400 then some elapsed else rest
]

unfoldable pub latency_via : (ℕ → Reply) → Option ℕ
unfolding latency_from
latency_via = latency_from 3

-- A JSON body, or a request or body that failed.
pub data DelayReply : Type 0 where
  answer : Json → DelayReply
  failure : DelayReply

-- What the engine says about the delay, if it says anything.
unfoldable pub verdict : DelayReply → Option ℕ
unfolding get
verdict (answer j) = get (lit "delay") j >>= as_u64
verdict failure = none

abbrev pub positive : ℕ → Option ℕ
positive zero = none
positive (suc d) = some (suc d)

unfoldable pub delay_from : ℕ → (ℕ → DelayReply) → Option ℕ
unfolding verdict
delay_from zero replies = none
delay_from (suc f) replies = elim (verdict (replies 0)) [
  | some d ↦ positive d
  | none ↦ delay_from f (λ i. replies (suc i))
]

unfoldable pub delay_via_api : (ℕ → DelayReply) → Option ℕ
unfolding delay_from
delay_via_api = delay_from 3

-- The bytes and the seconds of a download, if it came to an end.
pub data Download : Type 0 where
  downloaded : ℕ → F64 → Download
  no_download : Download

unfoldable pub speed_of : Quotient → Download → Option F64
speed_of divide no_download = none
speed_of divide (downloaded bytes secs) =
    if float_lt float_zero secs && ltb 0 bytes then some (divide bytes secs) else none

-- The answers to the two attempts for each address, in the order in which they are asked.
unfoldable pub bandwidth_via : Quotient → (Text → ℕ → Download) → Option F64
unfolding speed_of first_some
bandwidth_via divide answers =
    first_some (λ url. first_some (λ i. speed_of divide (answers url i)) (0 ∷ 1 ∷ []))
      speed_download_urls

-- The body of each channel, if there is one.
unfoldable pub country_via : Texts → (Text → Option Text) → Option Text
unfolding extract_country first_some
country_via t bodies = first_some (λ url. bodies url >>= extract_country t) geo_channels

-- The answer of a service: its status, and its body if that can be read.
pub data PageReply : Type 0 where
  page : ℕ → Option Text → PageReply
  no_page : PageReply

abbrev pub failed_service : UnlockResult
failed_service = record { status = lit "failed"; region = none }

unfoldable pub service_result : Texts → UnlockDetect → PageReply → UnlockResult
unfolding classify
service_result t d no_page = failed_service
service_result t d (page status none) = failed_service
service_result t d (page status (some b)) = classify t d status b

-- `a < b` on texts.
unfoldable pub text_lt : Text → Text → Bool
text_lt s [] = false
text_lt [] (b ∷ t) = true
text_lt (a ∷ s) (b ∷ t) = ltb a b || (a == b && text_lt s t)

-- `map.insert(id, result)` on a map that is kept in the order of its keys.
unfoldable pub insert_service :
    Text → UnlockResult → List (Text × UnlockResult) → List (Text × UnlockResult)
unfolding text_lt
insert_service id r [] = (id, r) ∷ []
insert_service id r ((j, q) ∷ m) =
    if text_lt id j
    then (id, r) ∷ (j, q) ∷ m
    else if text_eq id j
    then (id, r) ∷ m
    else (j, q) ∷ insert_service id r m

unfoldable pub unlock_from :
    Texts
    → (Text → PageReply)
    → List (Text × UnlockDetect)
    → List (Text × UnlockResult)
    → List (Text × UnlockResult)
unfolding service_result insert_service
unlock_from t pages [] services = services
unlock_from t pages ((id, d) ∷ more) services =
    unlock_from t pages more (insert_service id (service_result t d (pages id)) services)

unfoldable pub unlock_via : Texts → (Text → PageReply) → List (Text × UnlockResult)
unfolding unlock_from
unlock_via t pages = unlock_from t pages stream_services []
