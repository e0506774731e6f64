-- ===== src/Server/Requests/Header.antt =====
-- The usage header is read as it is written (server/src/lib.rs).
use sub_hub.Common.{
  ℕ, ◌^◌, ◌<◌, ◌≡◌, refl, Bool, true, false, some, [], ◌∷◌, ◌++◌, Text, lit, All, All-append, trim,
  is_digit, is_whitespace, split_once, split_at, to_ascii_lowercase, arith, ap, ◌==◌, ◌&&◌, not,
  every, text_eq, trim_matches, ◌∙◌,
}
use sub_hub.Common.Decimal.{decimal, decimal-All}
use sub_hub.Parse.Dates.{normalize_epoch, parse_unsigned}
use sub_hub.Parse.Fields.{max_u64}
use sub_hub.Parse.Usage.{SubscriptionUsage, no_usage}
use sub_hub.Parse.Dates.RoundTrip.{
  split_once-append, split_at-none, split_at-append, trim-none, All-weaken, parse_unsigned-decimal,
}
use sub_hub.Server.Requests.{set_usage, read_part, read_pair, read_parts, parse_userinfo_header}

-- A part of the header.
abbrev pub part : Text → ℕ → Text
part key n = key ++ 61 ∷ decimal n

-- The header in the form that the source documents.
abbrev pub header_text : ℕ → ℕ → ℕ → ℕ → Text
header_text up down total expire =
    part (lit "upload") up
    ++ 59
      ∷ (32 ∷ part (lit "download") down
          ++ 59 ∷ (32 ∷ part (lit "total") total ++ 59 ∷ (32 ∷ part (lit "expire") expire)))

-- Neither a blank nor one of the separators.
abbrev Solid : ℕ → Type 0
Solid c = (is_whitespace c ≡ false) × ((c == 59) ≡ false)

digit-Solid : (c : ℕ) → is_digit c ≡ true → Solid c
unfolding is_digit is_whitespace
digit-Solid c h = ground arith

part-Solid : (key : Text) (n : ℕ) → All Solid key → All Solid (part key n)
unfolding is_whitespace
part-Solid key n h =
    All-append Solid key (61 ∷ decimal n) h
      ((refl, refl), All-weaken digit-Solid (decimal n) (decimal-All n))

trim-part : (key : Text) (n : ℕ) → All Solid key → trim (part key n) ≡ part key n
trim-part key n h =
    trim-none (part key n) (All-weaken (λ c s. s.0) (part key n) (part-Solid key n h))

trim-decimal : (n : ℕ) → trim (decimal n) ≡ decimal n
trim-decimal n =
    trim-none (decimal n) (All-weaken (λ c h. (digit-Solid c h).0) (decimal n) (decimal-All n))

read_part-part :
    (key : Text) (n : ℕ) (u : SubscriptionUsage)
    → All Solid key
    → All (λ c. (c == 61) ≡ false) key
    → n < 2 ^ 64
    → read_part (part key n) u ≡ set_usage (to_ascii_lowercase (trim key)) (some n) u
unfolding read_part read_pair
read_part-part key n u solid plain small =
    ap (λ t. read_pair (split_once 61 t) u) (trim-part key n solid)
    ∙ ap (λ o. read_pair o u) (split_once-append 61 key (decimal n) plain)
    ∙ ap (λ t. set_usage (to_ascii_lowercase (trim key)) (parse_unsigned max_u64 t) u)
        (trim-decimal n)
    ∙ ap (λ o. set_usage (to_ascii_lowercase (trim key)) o u)
        (parse_unsigned-decimal max_u64 n (omega arith) small)

-- A blank in front is trimmed.
read_part-blank : (s : Text) (u : SubscriptionUsage) → read_part (32 ∷ s) u ≡ read_part s u
unfolding read_part trim
read_part-blank s u = refl

abbrev is_end : ℕ → Bool
is_end c = c == 59

part-unsplit : (key : Text) (n : ℕ) → All Solid key → All (λ c. is_end c ≡ false) (32 ∷ part key n)
part-unsplit key n h = (refl, All-weaken (λ c s. s.1) (part key n) (part-Solid key n h))

abbrev key_char : ℕ → Bool
key_char c = not (is_whitespace c) && not (c == 59) && not (c == 61)

key-Solid : (key : Text) → every key_char key ≡ true → All Solid key
key-Solid [] h = tt
key-Solid (c ∷ key) h = (ground arith, key-Solid key (ground arith))

key-plain : (key : Text) → every key_char key ≡ true → All (λ c. (c == 61) ≡ false) key
key-plain [] h = tt
key-plain (c ∷ key) h = (ground arith, key-plain key (ground arith))

-- One part, and those behind it.
parts-cons :
    (key : Text) (n : ℕ) (rest : Text) (u : SubscriptionUsage)
    → every key_char key ≡ true
    → n < 2 ^ 64
    → read_parts (split_at is_end (32 ∷ part key n ++ 59 ∷ rest)) u
      ≡ read_parts (split_at is_end rest) (set_usage (to_ascii_lowercase (trim key)) (some n) u)
unfolding read_parts
parts-cons key n rest u k small =
    ap (λ l. read_parts l u)
      (split_at-append is_end (32 ∷ part key n) 59 rest (part-unsplit key n (key-Solid key k)) refl)
    ∙ ap (read_parts (split_at is_end rest)) (
        read_part-blank (part key n) u
        ∙ read_part-part key n u (key-Solid key k) (key-plain key k) small)

parts-last :
    (key : Text) (n : ℕ) (u : SubscriptionUsage)
    → every key_char key ≡ true
    → n < 2 ^ 64
    → read_parts (split_at is_end (32 ∷ part key n)) u
      ≡ set_usage (to_ascii_lowercase (trim key)) (some n) u
unfolding read_parts
parts-last key n u k small =
    ap (λ l. read_parts l u)
      (split_at-none is_end (32 ∷ part key n) (part-unsplit key n (key-Solid key k)))
    ∙ read_part-blank (part key n) u
    ∙ read_part-part key n u (key-Solid key k) (key-plain key k) small

-- The first part has no blank in front.
parts-first :
    (key : Text) (n : ℕ) (rest : Text) (u : SubscriptionUsage)
    → every key_char key ≡ true
    → n < 2 ^ 64
    → read_parts (split_at is_end (part key n ++ 59 ∷ rest)) u
      ≡ read_parts (split_at is_end rest) (set_usage (to_ascii_lowercase (trim key)) (some n) u)
unfolding read_parts
parts-first key n rest u k small =
    ap (λ l. read_parts l u)
      (split_at-append is_end (part key n) 59 rest (part-unsplit key n (key-Solid key k)).1 refl)
    ∙ ap (read_parts (split_at is_end rest))
        (read_part-part key n u (key-Solid key k) (key-plain key k) small)

-- A usage header with four numbers below 2 ^ 64 in the form that the source documents is read as
-- these numbers, the time of expiry in milliseconds.
pub parse_userinfo_header-header_text :
    (up down total expire : ℕ)
    → up < 2 ^ 64
    → down < 2 ^ 64
    → total < 2 ^ 64
    → expire < 2 ^ 64
    → parse_userinfo_header (header_text up down total expire) ≡ record {
      upload = some up;
      download = some down;
      total = some total;
      expire = some (normalize_epoch expire);
    }
unfolding parse_userinfo_header set_usage text_eq to_ascii_lowercase trim trim_matches is_whitespace
parse_userinfo_header-header_text up down total expire a b c d =
    parts-first (lit "upload") up _ no_usage refl a
    ∙ parts-cons (lit "download") down _ _ refl b
    ∙ parts-cons (lit "total") total _ _ refl c
    ∙ parts-last (lit "expire") expire _ refl d
