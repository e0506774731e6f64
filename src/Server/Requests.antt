-- ===== src/Server/Requests.antt =====
-- What the server reads from requests and responses before it works on the store
-- (server/src/lib.rs): the usage header, URLs, the fetch of a document, and the query of a link.
pub mod Redacted
pub mod Header
use sub_hub.Common.{
  ℕ, ◌+◌, ◌*◌, ◌^◌, ◌/◌, ◌%◌, Bool, true, false, not, ◌&&◌, ◌||◌, Option, none, some, List, [], ◌∷◌,
  ◌++◌, Text, lit, text_eq, is_empty, is_some, contains, starts_with, split_once, split_at, trim,
  to_ascii_lowercase, drop, or_else, ltb, length, ◌==◌, if◌then◌else◌, ◌>>=◌,
}
use sub_hub.Common.Decimal.{decimal}
use sub_hub.Model.Health.{SubscriptionHealth, recompute, status, u64}
use sub_hub.Model.Subscription.{Subscription}
use sub_hub.Ops.Transform.{Transform, FilterRule, SortBy, RenameRule}
use sub_hub.Parse.Dates.{parse_unsigned, normalize_epoch}
use sub_hub.Parse.Fields.{max_u64}
use sub_hub.Parse.Uri.{Codecs}
use sub_hub.Parse.Usage.{SubscriptionUsage, no_usage, extract_subscription_usage}

-- The `match` on a key of the header.
unfoldable pub set_usage : Text → Option ℕ → SubscriptionUsage → SubscriptionUsage
set_usage key val u =
    if text_eq key (lit "upload")
    then record u { upload = val }
    else if text_eq key (lit "download")
    then record u { download = val }
    else if text_eq key (lit "total")
    then record u { total = val }
    else if text_eq key (lit "expire")
    then record u { expire = val >>= λ v. some (normalize_epoch v) }
    else u

-- A key and its value, if the part has both.
unfoldable pub read_pair : Option (Text × Text) → SubscriptionUsage → SubscriptionUsage
unfolding set_usage parse_unsigned
read_pair none u = u
read_pair (some (k, v)) u =
    set_usage (to_ascii_lowercase (trim k)) (parse_unsigned max_u64 (trim v)) u

-- The body of the loop, for one part of the header.
unfoldable pub read_part : Text → SubscriptionUsage → SubscriptionUsage
unfolding read_pair split_once
read_part kv u = read_pair (split_once 61 (trim kv)) u

unfoldable pub read_parts : List Text → SubscriptionUsage → SubscriptionUsage
unfolding read_part
read_parts [] u = u
read_parts (kv ∷ kvs) u = read_parts kvs (read_part kv u)

unfoldable pub parse_userinfo_header : Text → SubscriptionUsage
unfolding read_parts split_at
parse_userinfo_header h = read_parts (split_at (λ c. c == 59) h) no_usage

unfoldable pub usage_from_sources : Codecs → Option Text → Text → SubscriptionUsage
unfolding parse_userinfo_header extract_subscription_usage
usage_from_sources k none body = extract_subscription_usage k body
usage_from_sources k (some h) body =
    let u = extract_subscription_usage k body in
    let head = parse_userinfo_header h in
    record {
      upload = or_else head.upload u.upload;
      download = or_else head.download u.download;
      total = or_else head.total u.total;
      expire = or_else head.expire u.expire;
    }

-- `url.find("://")`: the text up to its end, and the rest.
unfoldable pub split_scheme_end : Text → Option (Text × Text)
unfolding starts_with
split_scheme_end [] = none
split_scheme_end (c ∷ s) =
    if starts_with (c ∷ s) (lit "://")
    then some (lit "://", drop 3 (c ∷ s))
    else elim (split_scheme_end s) [ none ↦ none | some (a, b) ↦ some (c ∷ a, b) ]

-- The text before the query.
unfoldable pub before_question : Text → Text
unfolding split_once
before_question url = elim (split_once 63 url) [ none ↦ url | some (head, query) ↦ head ]

-- The text behind the first at sign, if there is one.
unfoldable pub behind_user : Text → Text
unfolding split_once
behind_user rest = elim (split_once 64 rest) [ none ↦ rest | some (user, host) ↦ host ]

-- `split_once('@')` finds nothing exactly if the rest has no at sign, so `contains('@')` need not be
-- asked.
unfoldable pub redact_url : Text → Text
unfolding before_question behind_user split_scheme_end
redact_url url =
    let u = before_question url in
    elim (split_scheme_end u) [ none ↦ u | some (scheme, rest) ↦ scheme ++ behind_user rest ]

abbrev pub max_sub_response_bytes : ℕ
max_sub_response_bytes = 16 * 1024 * 1024

-- A response: the header, the length that it states, and the bytes or an error.
pub record Response : Type 0 where
  pub userinfo : Option Text
  pub content_length : Option ℕ
  pub body : List ℕ
  pub read_error : Option Text

-- What the client gives: a response, or the text of an error without its URL.
pub data Sent : Type 0 where
  received : Response → Sent
  not_sent : Text → Sent

pub data Fetched : Type 0 where
  document : Text → Option Text → Fetched
  error : Text → Fetched

unfoldable pub is_http : Text → Bool
unfolding to_ascii_lowercase starts_with
is_http url =
    let lower = to_ascii_lowercase (trim url) in
    starts_with lower (lit "http://") || starts_with lower (lit "https://")

-- The test of the stated length.
unfoldable pub states_too_much : Option ℕ → Bool
states_too_much none = false
states_too_much (some n) = ltb max_sub_response_bytes n

unfoldable pub read_body : Codecs → Response → Fetched
unfolding states_too_much
read_body k r = elim r.read_error [
  | some e ↦ error (lit "read body failed: " ++ e)
  | none ↦
      if ltb max_sub_response_bytes (length r.body)
      then error (lit "订阅响应过大 (超过 " ++ decimal max_sub_response_bytes ++ lit "B)")
      else document (k.from_utf8_lossy r.body) r.userinfo
]

unfoldable pub read_response : Codecs → Response → Fetched
unfolding read_body states_too_much
read_response k r =
    if states_too_much r.content_length
    then error (
        lit "订阅响应过大 ("
        ++ elim r.content_length [ none ↦ [] | some n ↦ decimal n ]
        ++ lit "B > "
        ++ decimal max_sub_response_bytes
        ++ lit "B)")
    else read_body k r

unfoldable pub read_sent : Codecs → Sent → Fetched
unfolding read_response
read_sent k (not_sent e) = error (lit "fetch failed: " ++ e)
read_sent k (received r) = read_response k r

unfoldable pub fetch_subscription_text : Codecs → (Text → Sent) → Text → Fetched
unfolding is_http redact_url read_sent
fetch_subscription_text k get url =
    if is_http url
    then read_sent k (get url)
    else error (lit "不支持的订阅 URL 协议（仅支持 http/https）: " ++ redact_url url)
