-- ===== src/Parse/Uri.antt =====
-- `parse_uri` and the share links of each protocol (core/src/parse.rs).
use sub_hub.Common.{
  ℕ, Bool, true, false, not, ◌||◌, Option, none, some, List, [], ◌∷◌, Text, lit, text_eq, non_empty,
  or_else, unwrap_or, if◌then◌else◌, ◌>>=◌, trim, retain, starts_with, to_ascii_lowercase, ◌==◌,
  leb, ◌-◌, ◌^◌,
}
use sub_hub.Common.Lookup.{lookup_last}
use sub_hub.Model.Json.{Json, string, bool, get, as_string, as_u64, text_at}
use sub_hub.Model.Proxy.{Proxy, ProxyType, trojan, vmess, vless, new}
use sub_hub.Model.Region.{Unicode}
use sub_hub.Parse.Authority.{Auth, split_authority}
use sub_hub.Parse.Dates.{parse_unsigned}
use sub_hub.Parse.Fields.{Doubles, max_u64, valid_port, parse_alpn, yaml_string_list}

-- The libraries that the parsers call: `percent_encoding`, the engines of `base64`,
-- `String::from_utf8_lossy`, `serde_json`, `serde_yaml`, and the numbers and letters of `std`.
pub record Codecs : Type 0 where
  pub decode_percent : Text → Text
  pub standard : Text → Option (List ℕ)
  pub standard_no_pad : Text → Option (List ℕ)
  pub url_safe : Text → Option (List ℕ)
  pub url_safe_no_pad : Text → Option (List ℕ)
  pub from_utf8_lossy : List ℕ → Text
  pub json : Text → Option Json
  pub yaml : Text → Option Json
  pub doubles : Doubles
  pub unicode : Unicode

abbrev is_break : ℕ → Bool
is_break c = c == 10 || c == 13

-- The error of a text that no engine decodes is not kept.
unfoldable pub b64_decode : Codecs → Text → Option (List ℕ)
b64_decode k t =
    let s = retain (λ c. not (is_break c)) (trim t) in
    or_else (k.standard s)
      (or_else (k.standard_no_pad s) (or_else (k.url_safe s) (k.url_safe_no_pad s)))

-- `v == "1" || v == "true"`.
abbrev pub is_on : Text → Bool
is_on v = text_eq v (lit "1") || text_eq v (lit "true")

-- The value of a key of the query.
abbrev pub param : Auth → Text → Option Text
param a key = lookup_last key a.query

abbrev pub either : Auth → Text → Text → Option Text
either a k j = or_else (param a k) (param a j)

abbrev pub flag : Option Text → Option Bool
flag none = none
flag (some v) = some (is_on v)

abbrev pub linked_node : Option Text → Auth → ProxyType → Proxy
linked_node name a t = new (unwrap_or name a.host) t a.host a.port

-- `s.eq_ignore_ascii_case(t)` for a text in lower case.
abbrev pub is_word : Text → Text → Bool
is_word s t = text_eq (to_ascii_lowercase s) t

-- `s.split_once("://")`.
abbrev after_slashes : Text → Text
after_slashes [] = []
after_slashes (c ∷ []) = []
after_slashes (c ∷ d ∷ s) = s

unfoldable pub split_scheme : Text → Option (Text × Text)
unfolding starts_with
split_scheme [] = none
split_scheme (c ∷ s) =
    if starts_with (c ∷ s) (lit "://")
    then some ([], after_slashes s)
    else elim (split_scheme s) [ none ↦ none | some (a, b) ↦ some (c ∷ a, b) ]

-- A number, or a text that is one.
abbrev pub text_or_number : Json → Option ℕ
unfolding parse_unsigned
text_or_number x = or_else (as_string x >>= parse_unsigned max_u64) (as_u64 x)

abbrev json_flag : Json → Option Bool
json_flag (bool b) = some b
json_flag (string s) = some (is_on s)
json_flag _ = none

abbrev is_tls : Json → Bool
is_tls (string s) = text_eq s (lit "tls") || text_eq s (lit "true")
is_tls (bool b) = b
is_tls _ = false

abbrev fits_u32 : ℕ → Option ℕ
fits_u32 n = if leb n (2 ^ 32 - 1) then some n else none

-- The fields of the JSON of a VMess link.
unfoldable pub vmess_fields : Json → Proxy → Proxy
unfolding get text_at yaml_string_list parse_unsigned
vmess_fields v p = record p {
  uuid = text_at (lit "id") v;
  alter_id = get (lit "aid") v >>= text_or_number >>= fits_u32;
  cipher = some (
      unwrap_or (or_else (get (lit "scy") v) (get (lit "cipher") v) >>= as_string)
        (lit "aes-128-gcm"));
  network = text_at (lit "net") v;
  tls = some (unwrap_or (get (lit "tls") v >>= (λ t. some (is_tls t))) false);
  sni =
      or_else (get (lit "sni") v) (or_else (get (lit "peer") v) (get (lit "host") v)) >>= as_string;
  path = text_at (lit "path") v;
  host = text_at (lit "host") v;
  alpn = yaml_string_list (get (lit "alpn") v);
  skip_cert_verify = or_else (get (lit "allowInsecure") v) (get (lit "insecure") v) >>= json_flag;
}

unfoldable pub vmess_node : Option Text → Json → Option Proxy
unfolding vmess_fields text_at get parse_unsigned
vmess_node name v = do
  server ← text_at (lit "add") v
  port ← get (lit "port") v >>= text_or_number >>= valid_port
  some (
      vmess_fields v
        (new (unwrap_or (or_else name (text_at (lit "ps") v)) server) vmess server port))

module _ (k : Codecs) where
  unfoldable pub parse_vmess : Text → Option Text → Option Proxy
  unfolding vmess_node b64_decode
  parse_vmess body name =
      b64_decode k body >>= (λ bytes. k.json (k.from_utf8_lossy bytes)) >>= vmess_node name

  abbrev pub authority : Text → Option Auth
  unfolding split_authority
  authority = split_authority k.decode_percent

  unfoldable pub parse_vless : Text → Option Text → Option Proxy
  unfolding split_authority parse_alpn lookup_last
  parse_vless body name = do
    a ← authority body
    let security = unwrap_or (param a (lit "security")) []
    let real = is_word security (lit "reality")
    some (record (linked_node name a vless) {
      uuid = some a.userinfo;
      flow = param a (lit "flow");
      network = either a (lit "type") (lit "network");
      tls = some (not (is_word security (lit "none")));
      reality = real;
      reality_public_key = if real then non_empty (param a (lit "pbk")) else none;
      reality_short_id = if real then param a (lit "sid") else none;
      sni = param a (lit "sni");
      fingerprint = param a (lit "fp");
      alpn = parse_alpn (param a (lit "alpn"));
      skip_cert_verify = flag (either a (lit "allowinsecure") (lit "insecure"));
      path = param a (lit "path");
      host = param a (lit "host");
      service_name = param a (lit "servicename");
    })

  unfoldable pub parse_trojan : Text → Option Text → Option Proxy
  unfolding split_authority parse_alpn lookup_last
  parse_trojan body name = do
    a ← authority body
    some (record (linked_node name a trojan) {
      password = some a.userinfo;
      tls = some true;
      sni = either a (lit "sni") (lit "peer");
      flow = param a (lit "flow");
      network = param a (lit "type");
      path = param a (lit "path");
      host = param a (lit "host");
      fingerprint = param a (lit "fp");
      alpn = parse_alpn (param a (lit "alpn"));
      skip_cert_verify = flag (either a (lit "allowinsecure") (lit "skip-cert-verify"));
    })
