-- ===== src/Parse/Usage.antt =====
-- `extract_subscription_usage` and `yaml_u64` (core/src/parse.rs): the traffic of a subscription.
use sub_hub.Common.{
  ℕ, ◌&&◌, Option, none, some, Text, lit, is_empty, or_else, unwrap_or, trim, if◌then◌else◌, ◌>>=◌,
}
use sub_hub.Common.Float.{is_finite, float_ge, float_zero}
use sub_hub.Model.Json.{Json, number, real, get, as_string, as_u64}
use sub_hub.Parse.Dates.{parse_unsigned, normalize_epoch, date_str_to_epoch_ms}
use sub_hub.Parse.Fields.{Doubles, max_u64}
use sub_hub.Parse.Uri.{Codecs, b64_decode}

pub record SubscriptionUsage : Type 0 where
  pub upload : Option ℕ
  pub download : Option ℕ
  pub total : Option ℕ
  pub expire : Option ℕ

abbrev pub no_usage : SubscriptionUsage
no_usage = record { upload = none; download = none; total = none; expire = none }

-- A double as a number of bytes, if it is one.
abbrev pub double_u64 : Doubles → Json → Option ℕ
unfolding is_finite float_ge
double_u64 d (number (real x)) =
    if is_finite x && float_ge x float_zero then some (d.truncate x) else none
double_u64 d _ = none

abbrev pub text_u64 : Doubles → Text → Option ℕ
unfolding parse_unsigned
text_u64 d s =
    or_else (parse_unsigned max_u64 (trim s))
      (d.parse (trim s) >>= (λ f. some (d.truncate (d.max f float_zero))))

unfoldable pub yaml_u64 : Doubles → Option Json → Option ℕ
unfolding parse_unsigned is_finite float_ge
yaml_u64 d v =
    v >>= (λ x. or_else (as_u64 x) (or_else (as_string x >>= text_u64 d) (double_u64 d x)))

-- A field at the top or in `info`.
unfoldable pub field_or_info : Json → Text → Option Json
unfolding get
field_or_info v key = or_else (get key v) (get (lit "info") v >>= get key)

-- The closure `pick`: the first of both that is a number.
unfoldable pub usage_at : Doubles → Json → Text → Option ℕ
unfolding yaml_u64 get
usage_at d v key = or_else (yaml_u64 d (get key v)) (yaml_u64 d (get (lit "info") v >>= get key))

unfoldable pub expiry : Doubles → Option Json → Option ℕ
unfolding yaml_u64 normalize_epoch date_str_to_epoch_ms
expiry d v = elim (v >>= as_string) [
  | none ↦ yaml_u64 d v >>= (λ n. some (normalize_epoch n))
  | some txt ↦ elim (yaml_u64 d v) [
    | some n ↦ some (normalize_epoch n)
    | none ↦ date_str_to_epoch_ms txt
  ]
]

unfoldable pub usage_of : Doubles → Json → SubscriptionUsage
unfolding usage_at expiry field_or_info
usage_of d v = record {
  upload = usage_at d v (lit "upload");
  download = usage_at d v (lit "download");
  total = usage_at d v (lit "total");
  expire = expiry d (field_or_info v (lit "expire"));
}

-- The text in a base64 text, or else the text.
abbrev pub plain_text : Codecs → Text → Text
unfolding b64_decode
plain_text k raw = unwrap_or (b64_decode k raw >>= (λ b. some (k.from_utf8_lossy b))) raw

unfoldable pub extract_subscription_usage : Codecs → Text → SubscriptionUsage
unfolding usage_of b64_decode
extract_subscription_usage k raw =
    if is_empty (trim raw)
    then no_usage
    else elim (k.yaml (plain_text k (trim raw))) [ none ↦ no_usage | some v ↦ usage_of k.doubles v ]
