-- ===== src/Parse/Fields.antt =====
-- The readers of single fields (core/src/parse.rs), which the formats share.
use sub_hub.Common.{
  ℕ, ◌-◌, ◌^◌, Bool, not, ◌&&◌, ◌||◌, ◌==◌, leb, Option, none, some, List, [], ◌∷◌, map, Text, lit,
  retain, is_empty, text_eq, trim, to_ascii_lowercase, split_at, is_digit, starts_with,
  trim_start_of, or_else, if◌then◌else◌, ◌>>=◌,
}
use sub_hub.Common.Float.{F64, float_zero}
use sub_hub.Model.Json.{Json, string, array, as_string, as_u64, strings, number, real}
use sub_hub.Parse.Dates.{parse_unsigned}

abbrev pub max_u64 : ℕ
max_u64 = 2 ^ 64 - 1

-- Decimal doubles: `parse`, the product, the maximum, `round() as u64`, a whole value `as u64`,
-- `as u64`, and `Display`.
pub record Doubles : Type 0 where
  pub parse : Text → Option F64
  pub mul : F64 → F64 → F64
  pub max : F64 → F64 → F64
  pub round : F64 → ℕ
  pub whole : F64 → Option ℕ
  pub truncate : F64 → ℕ
  pub display : F64 → Text

abbrev pub is_port : ℕ → Bool
is_port n = leb 1 n && leb n 65535

-- A number, or a text with a number.
unfoldable pub number_or_text : Json → Option ℕ
unfolding parse_unsigned
number_or_text x = or_else (as_u64 x) (as_string x >>= (λ s. parse_unsigned max_u64 (trim s)))

abbrev pub valid_port : ℕ → Option ℕ
valid_port p = if is_port p then some p else none

unfoldable pub port_from_yaml : Option Json → Option ℕ
unfolding number_or_text
port_from_yaml v = v >>= (λ x. number_or_text x >>= valid_port)

abbrev pub whole_number : Doubles → Json → Option ℕ
whole_number d (number (real x)) = d.whole x
whole_number d _ = none

unfoldable pub port_from_json : Doubles → Option Json → Option ℕ
unfolding number_or_text
port_from_json d v = v >>= (λ x. or_else (number_or_text x) (whole_number d x) >>= valid_port)

-- `u32_from_yaml` and `u32_from_json`, which are alike.
unfoldable pub u32_from : Option Json → Option ℕ
unfolding number_or_text
u32_from v = v >>= (λ x. number_or_text x >>= (λ n. if leb n (2 ^ 32 - 1) then some n else none))

unfoldable pub parse_bool : Text → Bool
parse_bool v =
    let s = to_ascii_lowercase (trim v) in
    text_eq s (lit "1") || text_eq s (lit "true") || text_eq s (lit "yes") || text_eq s (lit "on")

-- `(!list.is_empty()).then_some(list)`.
abbrev pub some_list : List Text → Option (List Text)
some_list [] = none
some_list (t ∷ ts) = some (t ∷ ts)

unfoldable pub comma_list : Text → List Text
comma_list s = retain (λ t. not (is_empty t)) (map trim (split_at (λ c. c == 44) s))

unfoldable pub parse_alpn : Option Text → Option (List Text)
unfolding comma_list
parse_alpn v = v >>= (λ s. some_list (comma_list s))

abbrev pub list_of : Json → Option (List Text)
list_of (string s) = some_list (comma_list s)
list_of (array xs) = some_list (strings xs)
list_of _ = none

unfoldable pub yaml_string_list : Option Json → Option (List Text)
unfolding comma_list
yaml_string_list v = v >>= list_of

-- `take_while`.
unfoldable pub take_while : (ℕ → Bool) → Text → Text
take_while f [] = []
take_while f (c ∷ s) = if f c then c ∷ take_while f s else []

abbrev pub is_numeric : ℕ → Bool
is_numeric c = is_digit c || c == 46

-- The factor of a unit: 1000.0, 0.001, 0.000_001 or 1.0.
unfoldable pub unit_factor : Text → F64
unit_factor unit =
    if starts_with unit (lit "gb")
    then record { bits = 0x408F400000000000 }
    else if starts_with unit (lit "kb")
    then record { bits = 0x3F50624DD2F1A9FC }
    else if starts_with unit (lit "b")
    then record { bits = 0x3EB0C6F7A0B5ED8D }
    else record { bits = 0x3FF0000000000000 }

unfoldable pub parse_mbps : Doubles → Text → Option ℕ
unfolding take_while unit_factor
parse_mbps d s =
    let lower = to_ascii_lowercase (trim s) in
    d.parse (take_while is_numeric lower) >>= (λ value. some (
      d.round
        (d.mul (d.max value float_zero) (unit_factor (trim (trim_start_of is_numeric lower))))))
