-- ===== src/Resources.antt =====
-- Test targets, the channels that tell a country, and the verdicts on streaming services
-- (core/src/resources.rs).
pub mod Verdicts
use sub_hub.Common.{
  ℕ, zero, suc, ◌+◌, Bool, true, false, not, ◌&&◌, ◌||◌, Option, none, some, List, [], ◌∷◌, Text,
  lit, any, every, drop, is_empty, contains, starts_with, split_once, split_at, trim, ◌==◌, leb,
  length, or_else, if◌then◌else◌, get_elem?, ◌>>=◌,
}
use sub_hub.Model.Proxy.{UnlockResult}
use sub_hub.Model.Json.{Json, text_at}
use sub_hub.Parse.Document.{lines}

-- What the functions call: the parser of JSON, and the letter cases of Unicode.
pub record Texts : Type 0 where
  pub json : Text → Option Json
  pub to_uppercase : Text → Text
  pub to_lowercase : Text → Text

abbrev pub speed_download_urls : List Text
speed_download_urls =
    lit "https://proof.ovh.net/files/1Mb.dat"
    ∷ lit "https://speedtest.tele2.net/1MB.zip"
    ∷ lit "https://proof.ovh.net/files/10Mb.dat"
    ∷ lit "https://speedtest.tele2.net/10MB.zip"
    ∷ lit "https://speed.hetzner.de/1MB.bin"
    ∷ []

-- The field `url`, which alone is read.
abbrev pub geo_channels : List Text
geo_channels =
    lit "https://cloudflare.com/cdn-cgi/trace"
    ∷ lit "https://speed.cloudflare.com/meta"
    ∷ lit "https://free.freeipapi.com/api/json"
    ∷ lit "https://api.ip.sb/geoip"
    ∷ lit "https://ipapi.co/json"
    ∷ lit "https://api.myip.com"
    ∷ lit "https://reallyfreegeoip.org/json"
    ∷ []

abbrev pub is_letter : ℕ → Bool
is_letter c = (leb 65 c && leb c 90) || (leb 97 c && leb c 122)

-- `s.len() == 2` and all ASCII letters: letters are one byte each.
unfoldable pub is_code : Text → Bool
is_code s = every is_letter s && length s == 2

abbrev pub only_code : Text → Option Text
only_code s = if is_code s then some s else none

-- The first result among the candidates.
unfoldable pub first_some {ℓ κ} : {A : Type ℓ} {B : Type κ} → (A → Option B) → List A → Option B
first_some f [] = none
first_some f (a ∷ as') = or_else (f a) (first_some f as')

-- The rest behind a prefix of four characters.
unfoldable pub location : Text → Option Text
unfolding starts_with
location line = if starts_with line (lit "loc=") then some (drop 4 line) else none

-- `html.find("lang=\"")`: the text behind it.
unfoldable pub after_lang : Text → Option Text
unfolding starts_with
after_lang [] = none
after_lang (c ∷ s) =
    if starts_with (c ∷ s) (lit "lang=\"") then some (drop 6 (c ∷ s)) else after_lang s

abbrev pub blocked : UnlockResult
blocked = record { status = lit "blocked"; region = none }

abbrev pub unlocked : Option Text → UnlockResult
unlocked region = record { status = lit "unlocked"; region = region }

pub data UnlockDetect : Type 0 where
  tik_tok : UnlockDetect
  netflix : UnlockDetect
  disney : UnlockDetect
  you_tube : UnlockDetect
  body : List Text → UnlockDetect

abbrev pub stream_services : List (Text × UnlockDetect)
stream_services =
    (lit "tiktok", tik_tok)
    ∷ (lit "netflix", netflix)
    ∷ (lit "disney", disney)
    ∷ (lit "youtube", you_tube)
    ∷ (
      lit "chatgpt",
      body (lit "not available in your country" ∷ lit "your country is not supported" ∷ []),
    )
    ∷ []

module _ (t : Texts) where
  abbrev pub code_in : Text → Option Text
  code_in s = only_code (t.to_uppercase (trim s))

  -- The keys of the JSON answer.
  unfoldable pub country_in_json : Text → Option Text
  unfolding first_some text_at
  country_in_json b = t.json b >>= λ v.
      first_some (λ key. text_at key v >>= code_in)
        (lit "country" ∷ lit "country_code" ∷ lit "countryCode" ∷ [])

  unfoldable pub extract_country : Text → Option Text
  unfolding country_in_json first_some lines location
  extract_country b =
      or_else (country_in_json b) (first_some (λ line. location line >>= code_in) (lines b))

  unfoldable pub extract_html_lang_region : Text → Option Text
  unfolding after_lang split_once split_at
  extract_html_lang_region html = after_lang html >>= λ s. split_once 34 s >>= λ (lang, behind).
      get_elem? (split_at (λ c. c == 45) lang) 1 >>= λ region. only_code (t.to_uppercase region)

  -- The answer of TikTok with status 200.
  unfoldable pub tik_tok_region : Text → UnlockResult
  unfolding text_at
  tik_tok_region b = elim (t.json b >>= text_at (lit "region")) [
    | none ↦ blocked
    | some r ↦ if is_empty r then blocked else unlocked (some (t.to_uppercase (trim r)))
  ]

  unfoldable pub is_blocked : UnlockDetect → Text → Bool
  unfolding contains
  is_blocked tik_tok b = false
  is_blocked netflix b =
      contains b (lit "is not available in your country")
      || contains b (lit "Not Available in Your Country")
  is_blocked disney b =
      let low = t.to_lowercase b in
      (contains low (lit "is not available in your country")
        || contains low (lit "not available in your region")
        || contains low (lit "disney+ is not available"))
      || not (contains low (lit "disney+"))
  is_blocked you_tube b = not (contains (t.to_lowercase b) (lit "youtube premium"))
  is_blocked (body block) b =
      let low = t.to_lowercase b in any (λ s. contains low (t.to_lowercase s)) block

  -- The verdict on a page that is not blocked.
  unfoldable pub open_verdict : UnlockDetect → Text → UnlockResult
  unfolding tik_tok_region extract_html_lang_region
  open_verdict tik_tok b = tik_tok_region b
  open_verdict (body block) b = unlocked none
  open_verdict _ b = unlocked (extract_html_lang_region b)

  unfoldable pub classify : UnlockDetect → ℕ → Text → UnlockResult
  unfolding is_blocked open_verdict
  classify d status b = if status == 200 && not (is_blocked d b) then open_verdict d b else blocked
