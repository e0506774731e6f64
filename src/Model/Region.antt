-- ===== src/Model/Region.antt =====
-- `Proxy::region` and `Proxy::effective_region` (core/src/model.rs). The Unicode tables of the
-- standard library are a parameter.
mod Names
mod Codes
pub mod Outcomes
use Names.{name_table_head, name_table_rest}
use Codes.{code3_table, code_table}
use sub_hub.Common.{
  ℕ, ◌+◌, ◌-◌, Bool, true, false, not, ◌&&◌, ◌||◌, Option, none, some, List, [], ◌∷◌, ◌++◌, Text,
  lit, leb, or_else, unwrap_or, non_empty, contains, text_eq, ◌==◌, split_at, retain, is_empty,
  if◌then◌else◌,
}
use sub_hub.Model.Proxy.{Proxy}

-- `char::to_lowercase`, `str::to_lowercase` and the character classes of the standard library.
pub record Unicode : Type 0 where
  pub char_lowercase : ℕ → Text
  pub str_lowercase : Text → Text
  pub is_uppercase : ℕ → Bool
  pub is_alphabetic : ℕ → Bool
  pub is_alphanumeric : ℕ → Bool

-- A Regional_Indicator symbol.
unfoldable pub is_flag : ℕ → Bool
is_flag c = leb 0x1F1E6 c && leb c 0x1F1FF

abbrev pub flag_letter : ℕ → ℕ
flag_letter c = (c - 0x1F1E6) + 65

-- The loop over the name's characters; the first argument is `prev`.
unfoldable pub flag_scan : Option ℕ → Text → Option Text
unfolding is_flag
flag_scan prev [] = none
flag_scan none (b ∷ s) = flag_scan (some b) s
flag_scan (some a) (b ∷ s) =
    if is_flag a && is_flag b
    then some (flag_letter a ∷ flag_letter b ∷ [])
    else flag_scan (some b) s

-- `flat_map` of the characters' lower case.
unfoldable pub lower_chars : (ℕ → Text) → Text → Text
lower_chars lower [] = []
lower_chars lower (c ∷ s) = lower c ++ lower_chars lower s

-- The first entry whose needle stands in the text.
unfoldable pub find_needle : Text → List (Text × Text) → Option Text
find_needle hay [] = none
find_needle hay ((needle, code) ∷ rest) =
    if contains hay needle then some code else find_needle hay rest

-- The first code of the table that is the token.
unfoldable pub find_exact : Text → List (Text × Text) → Option Text
find_exact t [] = none
find_exact t ((code, region) ∷ rest) = if text_eq t code then some region else find_exact t rest

-- The text behind a prefix.
unfoldable pub strip_prefix : Text → Text → Option Text
strip_prefix s [] = some s
strip_prefix [] (c ∷ t) = none
strip_prefix (b ∷ s) (c ∷ t) = if b == c then strip_prefix s t else none

module _ (u : Unicode) where
  -- The token is the code, or continues it by a character that is not alphabetic.
  unfoldable pub code_matches : Text → Text → Bool
  unfolding strip_prefix
  code_matches t code = elim (strip_prefix t code) [
    | none ↦ false
    | some [] ↦ true
    | some (c ∷ _) ↦ not (u.is_alphabetic c)
  ]

  unfoldable pub find_code : Text → List (Text × Text) → Option Text
  find_code t [] = none
  find_code t ((code, region) ∷ rest) =
      if code_matches t code then some region else find_code t rest

  -- `name + " " + server`, in lower case.
  unfoldable pub haystack : Proxy → Text
  haystack p = lower_chars u.char_lowercase p.name ++ 32 ∷ lower_chars u.char_lowercase p.server

  unfoldable pub tokens : Text → List Text
  tokens hay = retain (λ t. not (is_empty t)) (split_at (λ c. not (u.is_alphanumeric c)) hay)

-- The outer loop over the tokens.
unfoldable pub first_token : (Text → Option Text) → List Text → Option Text
first_token f [] = none
first_token f (t ∷ ts) = or_else (f t) (first_token f ts)

module _ (u : Unicode) where
  -- The tiers below the flags, in their order.
  unfoldable pub region_of_text : Text → Text
  region_of_text hay =
      let ts = tokens u hay in
      unwrap_or
        (or_else (find_needle hay (name_table_head ++ name_table_rest)) (
          or_else (first_token (λ t. find_exact t code3_table) ts)
            (first_token (λ t. find_code u t code_table) ts)))
        (lit "OTHER")

  unfoldable pub region : Proxy → Text
  region p = unwrap_or (flag_scan none p.name) (region_of_text (haystack u p))

  unfoldable pub effective_region : Proxy → Text
  effective_region p = unwrap_or (non_empty p.outbound_country) (region p)
