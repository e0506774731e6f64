-- ===== src/Resources/Verdicts.antt =====
-- What the answers of the channels and services can say (core/src/resources.rs).
use sub_hub.Common.{
  ◌≡◌, true, Option, none, some, List, [], ◌∷◌, Text, lit, trim, split_once, split_at, get_elem?,
  or_else, Bool-cases, inl, inr, ◌==◌, ◌>>=◌,
}
use sub_hub.Model.Json.{text_at}
use sub_hub.Parse.Document.{lines}
use sub_hub.Resources.{
  Texts, is_code, first_some, location, code_in, country_in_json, extract_country, only_code,
  extract_html_lang_region, after_lang,
}

-- A code, if there is one.
abbrev pub MaybeCode : Option Text → Type 0
MaybeCode none = Unit {0}
MaybeCode (some s) = is_code s ≡ true

only_code-MaybeCode : (s : Text) → MaybeCode (only_code s)
only_code-MaybeCode s = elim (Bool-cases (is_code s)) [
  | inl e ↦ rw (e, only_code) e
  | inr e ↦ rw (e, only_code) tt
]

or_else-MaybeCode : (a b : Option Text) → MaybeCode a → MaybeCode b → MaybeCode (or_else a b)
or_else-MaybeCode none b h k = k
or_else-MaybeCode (some s) b h k = h

>>=-MaybeCode {ℓ} :
    {A : Type ℓ} (o : Option A) (f : A → Option Text)
    → ((a : A) → MaybeCode (f a))
    → MaybeCode (o >>= f)
>>=-MaybeCode none f h = tt
>>=-MaybeCode (some a) f h = h a

first_some-MaybeCode {ℓ} :
    {A : Type ℓ} (f : A → Option Text) (l : List A)
    → ((a : A) → MaybeCode (f a))
    → MaybeCode (first_some f l)
unfolding first_some
first_some-MaybeCode f [] h = tt
first_some-MaybeCode f (a ∷ l) h =
    or_else-MaybeCode (f a) (first_some f l) (h a) (first_some-MaybeCode f l h)

module _ (t : Texts) where
  code_in-MaybeCode : (s : Text) → MaybeCode (code_in t s)
  code_in-MaybeCode s = only_code-MaybeCode (t.to_uppercase (trim s))

  -- Whatever body a channel answers with, and whatever the parser of JSON makes of it, a country that is
  -- read from it consists of two ASCII letters.
  pub extract_country-is_code : (b : Text) → MaybeCode (extract_country t b)
  unfolding extract_country country_in_json
  extract_country-is_code b =
      or_else-MaybeCode (country_in_json t b)
        (first_some (λ line. location line >>= code_in t) (lines b))
        (>>=-MaybeCode (t.json b) _ (λ v.
          first_some-MaybeCode _ (lit "country" ∷ lit "country_code" ∷ lit "countryCode" ∷ [])
            (λ key. >>=-MaybeCode (text_at key v) _ code_in-MaybeCode)))
        (first_some-MaybeCode _ (lines b)
          (λ line. >>=-MaybeCode (location line) _ code_in-MaybeCode))

  extract_html_lang_region-is_code : (b : Text) → MaybeCode (extract_html_lang_region t b)
  unfolding extract_html_lang_region
  extract_html_lang_region-is_code b = >>=-MaybeCode (after_lang b) _ λ s.
      >>=-MaybeCode (split_once 34 s) _ λ (lang, behind).
        >>=-MaybeCode (get_elem? (split_at (λ c. c == 45) lang) 1) _
          λ region. only_code-MaybeCode (t.to_uppercase region)
