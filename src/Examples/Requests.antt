-- ===== src/Examples/Requests.antt =====
-- Theorems about what the server reads from requests and responses, at concrete inputs.
use sub_hub.Common.{
  ◌↔◌, ◌≡◌, refl, true, none, some, lit, ℕ, arith, to_ascii_lowercase, trim, trim_matches,
  starts_with, is_whitespace,
}
use sub_hub.Parse.Dates.{normalize_epoch}
use sub_hub.Parse.Uri.{Codecs}
use sub_hub.Server.Requests.{
  parse_userinfo_header, fetch_subscription_text, document, received, Response,
}
use sub_hub.Server.Requests.Header.{header_text, parse_userinfo_header-header_text}
use sub_hub.Server.Requests.Redacted.{has_scheme, Accepted, fetch_subscription_text-bounds}
use sub_hub.Examples.Samples.{ascii}
use sub_hub.Examples.Formats.{doubles}

abbrev expire : ℕ
expire = 1700000000

parse_userinfo_header-header_text_example :
    parse_userinfo_header (header_text 0 1048576 4294967296 expire) ≡ record {
      upload = some 0;
      download = some 1048576;
      total = some 4294967296;
      expire = some (normalize_epoch expire);
    }
parse_userinfo_header-header_text_example =
    parse_userinfo_header-header_text 0 1048576 4294967296 expire (omega arith) (omega arith)
      (omega arith) (omega arith)

-- Codecs that decode nothing.
abbrev pub codecs : Codecs
codecs = record {
  decode_percent = λ s. s;
  standard = λ s. none;
  standard_no_pad = λ s. none;
  url_safe = λ s. none;
  url_safe_no_pad = λ s. none;
  from_utf8_lossy = λ s. s;
  json = λ s. none;
  yaml = λ s. none;
  doubles = doubles;
  unicode = ascii;
}

abbrev response : Response
response = record {
  userinfo = some (lit "upload=0");
  content_length = some 3;
  body = lit "abc";
  read_error = none;
}

fetched :
    fetch_subscription_text codecs (λ url. received response) (lit "HTTP://h/")
    ≡ document (lit "abc") (some (lit "upload=0"))
unfolding fetch_subscription_text to_ascii_lowercase trim trim_matches starts_with is_whitespace
fetched = refl

fetch_subscription_text-bounds_example :
    (fetch_subscription_text codecs (λ url. received response) (lit "HTTP://h/")
      ≡ document (lit "abc") (some (lit "upload=0")))
    ↔ ((has_scheme (lit "HTTP://h/") ≡ true)
        × Accepted codecs (received response) (lit "abc") (some (lit "upload=0")))
fetch_subscription_text-bounds_example =
    fetch_subscription_text-bounds codecs (λ url. received response) (lit "HTTP://h/") (lit "abc")
      (some (lit "upload=0"))
