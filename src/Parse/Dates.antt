-- ===== src/Parse/Dates.antt =====
-- The dates of the usage block (core/src/parse.rs): `normalize_epoch` and `date_str_to_epoch_ms`.
pub mod Calendar
pub mod RoundTrip
pub mod Units
use Prim.Native.Nat.{min}
use sub_hub.Common.Decimal.{value_of}
use sub_hub.Common.{
  ◌>>=◌, ℕ, suc, ◌+◌, ◌-◌, ◌*◌, ◌/◌, ◌%◌, ◌^◌, Bool, true, false, not, ◌&&◌, ◌||◌, Option, none,
  some, List, [], ◌∷◌, Text, leb, ltb, ◌==◌, get_elem?, every, is_empty, is_digit, replace_char,
  split_once, split_at, trim, unwrap_or, if◌then◌else◌,
}

unfoldable pub normalize_epoch : ℕ → ℕ
normalize_epoch v =
    if v == 0
    then 0
    else if ltb v 1000000000000
    then min (v * 1000) (2 ^ 64 - 1)
    else if ltb v 1000000000000000
    then v
    else if ltb v 1000000000000000000
    then v / 1000
    else v / 1000000

-- The text behind a leading plus sign.
abbrev pub without_plus : Text → Text
without_plus [] = []
without_plus (c ∷ s) = if c == 43 then s else c ∷ s

-- `days-from-civil`.
unfoldable pub days_from_civil : ℕ → ℕ → ℕ → ℕ
days_from_civil year month day =
    let y = year - (if leb month 2 then 1 else 0) in
    let era = y / 400 in
    let yoe = y - era * 400 in
    let mp = (month + 9) % 12 in
    let doy = (153 * mp + 2) / 5 + day - 1 in
    let doe = yoe * 365 + yoe / 4 - yoe / 100 + doy in era * 146097 + doe - 719468

-- `s.parse()` for an unsigned type with a largest value: an optional plus sign and digits. The year
-- is parsed as an `i64`, whose minus sign cannot occur in a part of a split at `-`.
unfoldable pub parse_unsigned : ℕ → Text → Option ℕ
unfolding value_of is_digit
parse_unsigned max s =
    let body = without_plus s in
    if is_empty body || not (every is_digit body) || ltb max (value_of body)
    then none
    else some (value_of body)

-- The next three parts of the split date, which must all be there.
unfoldable pub date_parts : List Text → Option (ℕ × ℕ × ℕ)
unfolding parse_unsigned
date_parts (y ∷ m ∷ d ∷ rest) = do
  year ← parse_unsigned (2 ^ 63 - 1) y
  month ← parse_unsigned (2 ^ 32 - 1) m
  day ← parse_unsigned (2 ^ 32 - 1) d
  some (year, month, day)
date_parts _ = none

-- A part of the time, 0 if it is missing or is no number.
unfoldable pub time_part : ℕ → List Text → ℕ
unfolding parse_unsigned
time_part i parts = elim (get_elem? parts i) [
  | none ↦ 0
  | some s ↦ unwrap_or (parse_unsigned (2 ^ 32 - 1) s) 0
]

unfoldable pub is_plausible_date : ℕ × ℕ × ℕ → Bool
is_plausible_date (year, month, day) =
    leb 1970 year && leb year 9999 && leb 1 month && leb month 12 && leb 1 day && leb day 31

unfoldable pub is_plausible_time : ℕ → ℕ → ℕ → Bool
is_plausible_time hour min sec = leb hour 23 && leb min 59 && leb sec 60

-- The milliseconds of a date and the parts of a time.
unfoldable pub instant : ℕ × ℕ × ℕ → List Text → Option ℕ
unfolding days_from_civil time_part is_plausible_time
instant (year, month, day) parts =
    let hour = time_part 0 parts in
    let min = time_part 1 parts in
    let sec = time_part 2 parts in
    if is_plausible_time hour min sec
    then some (days_from_civil year month day * 86400000 + (hour * 3600 + min * 60 + sec) * 1000)
    else none

unfoldable pub date_and_time : Text → Text × Text
date_and_time t = elim (split_once 32 t) [ none ↦ (t, []) | some p ↦ p ]

unfoldable pub date_str_to_epoch_ms : Text → Option ℕ
unfolding date_and_time date_parts is_plausible_date instant
date_str_to_epoch_ms s =
    let (day, time) = date_and_time (replace_char 84 32 (trim s)) in
    elim (date_parts (split_at (λ c. c == 45) day)) [
      | none ↦ none
      | some civil ↦
          if is_plausible_date civil then instant civil (split_at (λ c. c == 58) time) else none
    ]
