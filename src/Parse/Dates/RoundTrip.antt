-- ===== src/Parse/Dates/RoundTrip.antt =====
-- Dates are read back from their ISO 8601 notation.
use mathlib.Core.Path.{subst}
use mathlib.Core.List.{reverse, reverse-reverse, reverse-cons}
use sub_hub.Common.{
  ℕ, ◌+◌, ◌-◌, ◌*◌, ◌≤◌, ◌<◌, ◌^◌, ◌≡◌, refl, sym, ap, ◌∙◌, Bool, true, false, ◌==◌, ltb,
  if◌then◌else◌, Bool-cases, inl, inr, arith, some, List, [], ◌∷◌, ◌++◌, Text, All, All-append,
  is_digit, every, length, split_at, split_once, trim, trim_matches, trim_start_of, is_whitespace,
  replace_char, get_elem?,
}
use sub_hub.Common.Decimal.{decimal, decimal-All, value_of, value_of-decimal, length-decimal}
use sub_hub.Parse.Dates.{
  parse_unsigned, date_parts, time_part, is_plausible_date, is_plausible_time, instant,
  date_and_time, date_str_to_epoch_ms, days_from_civil,
}
use sub_hub.Parse.Dates.Calendar.{
  Date, IsDate, date, date-IsDate, date-year, days_of-date, month_length,
}

-- A number in two digits at least.
unfoldable pub padded : ℕ → Text
padded n = if ltb n 10 then 48 ∷ decimal n else decimal n

abbrev AllDigits : Text → Type 0
AllDigits = All (λ c. is_digit c ≡ true)

padded-AllDigits : (n : ℕ) → AllDigits (padded n)
unfolding padded is_digit
padded-AllDigits n = elim (Bool-cases (ltb n 10)) [
  | inl e ↦ rw (e, padded) (refl, decimal-All n)
  | inr e ↦ rw (e, padded) (decimal-All n)
]

every-AllDigits : (s : Text) → AllDigits s → every is_digit s ≡ true
every-AllDigits [] h = refl
every-AllDigits (c ∷ s) h = ground (arith, h.0, every-AllDigits s h.1)

-- A text of digits, one at least, is parsed to its value.
parse_unsigned-digits :
    (max : ℕ) (s : Text)
    → AllDigits s
    → 0 < length s
    → value_of s ≤ max
    → parse_unsigned max s ≡ some (value_of s)
unfolding parse_unsigned is_digit
parse_unsigned-digits max [] h l k = absurd (omega arith)
parse_unsigned-digits max (c ∷ s) h l k = ground (arith, h.0, every-AllDigits s h.1)

pub parse_unsigned-decimal :
    (max n : ℕ) → n ≤ max → n < 2 ^ 64 → parse_unsigned max (decimal n) ≡ some n
parse_unsigned-decimal max n h k =
    let v = value_of-decimal n k in
    parse_unsigned-digits max (decimal n) (decimal-All n) (length-decimal n) (omega (arith, v))
    ∙ ap some v

value_of-zero : (s : Text) → value_of (48 ∷ s) ≡ value_of s
unfolding value_of
value_of-zero s = refl

parse_unsigned-padded : (max n : ℕ) → n ≤ max → n < 2 ^ 64 → parse_unsigned max (padded n) ≡ some n
unfolding padded is_digit
parse_unsigned-padded max n h k = elim (Bool-cases (ltb n 10)) [
  | inl e ↦
      let v : value_of (48 ∷ decimal n) ≡ n = value_of-zero (decimal n) ∙ value_of-decimal n k in
      rw (e, padded)
        (parse_unsigned-digits max (48 ∷ decimal n) (refl, decimal-All n) (omega arith)
            (omega (arith, v))
          ∙ ap some v)
  | inr e ↦ rw (e, padded) (parse_unsigned-decimal max n h k)
]

-- Nothing is split within a text without separators.
pub split_at-none : (f : ℕ → Bool) (s : Text) → All (λ c. f c ≡ false) s → split_at f s ≡ s ∷ []
unfolding split_at
split_at-none f [] h = refl
split_at-none f (c ∷ s) h = rw (h.0, split_at-none f s h.1)

pub split_at-append :
    (f : ℕ → Bool) (s : Text) (c : ℕ) (t : Text)
    → All (λ x. f x ≡ false) s
    → f c ≡ true
    → split_at f (s ++ c ∷ t) ≡ s ∷ split_at f t
unfolding split_at
split_at-append f [] c t h k = rw k
split_at-append f (x ∷ s) c t h k = rw (h.0, split_at-append f s c t h.1 k)

pub split_once-append :
    (c : ℕ) (s t : Text) → All (λ x. (x == c) ≡ false) s → split_once c (s ++ c ∷ t) ≡ some (s, t)
unfolding split_once
split_once-append c [] t h = ground arith
split_once-append c (x ∷ s) t h = rw (h.0, split_once-append c s t h.1)

trim_start_of-none : (f : ℕ → Bool) (s : Text) → All (λ c. f c ≡ false) s → trim_start_of f s ≡ s
unfolding trim_start_of
trim_start_of-none f [] h = refl
trim_start_of-none f (c ∷ s) h = rw h.0

pub All-weaken : {P Q : ℕ → Type 0} → ((c : ℕ) → P c → Q c) → (s : Text) → All P s → All Q s
All-weaken f [] h = tt
All-weaken f (c ∷ s) h = (f c h.0, All-weaken f s h.1)

All-reverse : (P : ℕ → Type 0) (s : Text) → All P s → All P (reverse s)
All-reverse P [] h = tt
All-reverse P (c ∷ s) h =
    subst (All P) (sym (reverse-cons c s))
      (All-append P (reverse s) (c ∷ []) (All-reverse P s h.1) (h.0, tt))

pub trim-none : (s : Text) → All (λ c. is_whitespace c ≡ false) s → trim s ≡ s
unfolding trim trim_matches
trim-none s h = rw (
  trim_start_of-none is_whitespace s h,
  trim_start_of-none is_whitespace (reverse s) (All-reverse _ s h),
  reverse-reverse s,
)

-- Three fields between separators.
fields : ℕ → Text → Text → Text → Text
fields sep a b c = a ++ (sep ∷ (b ++ (sep ∷ c)))

-- The date and the time in ISO 8601.
unfoldable pub date_text : Date → Text
unfolding fields
date_text x = fields 45 (padded x.year) (padded x.month) (padded x.day)

unfoldable pub time_text : ℕ → ℕ → ℕ → Text
unfolding fields
time_text hour min sec = fields 58 (padded hour) (padded min) (padded sec)

module _ {P : ℕ → Type 0} (of_digit : (c : ℕ) → is_digit c ≡ true → P c) where
  All-padded : (n : ℕ) → All P (padded n)
  All-padded n = All-weaken of_digit (padded n) (padded-AllDigits n)

  All-fields : (sep a b c : ℕ) → P sep → All P (fields sep (padded a) (padded b) (padded c))
  unfolding fields
  All-fields sep a b c p =
      All-append P (padded a) (sep ∷ (padded b ++ (sep ∷ padded c))) (All-padded a)
        (p, All-append P (padded b) (sep ∷ padded c) (All-padded b) (p, All-padded c))

digit-is_no_space : (c : ℕ) → is_digit c ≡ true → is_whitespace c ≡ false
unfolding is_digit is_whitespace
digit-is_no_space c h = ground arith

pub digit-is_no :
    (sep : ℕ) → is_digit sep ≡ false → (c : ℕ) → is_digit c ≡ true → (c == sep) ≡ false
unfolding is_digit
digit-is_no sep n c h = ground arith

split_at-fields :
    (sep a b c : ℕ)
    → is_digit sep ≡ false
    → split_at (λ x. x == sep) (fields sep (padded a) (padded b) (padded c))
      ≡ padded a ∷ padded b ∷ padded c ∷ []
unfolding fields
split_at-fields sep a b c n =
    let is_sep : (sep == sep) ≡ true = ground arith in
    split_at-append (λ x. x == sep) (padded a) sep (padded b ++ (sep ∷ padded c))
      (All-padded (digit-is_no sep n) a) is_sep
    ∙ ap (λ l. padded a ∷ l)
        (split_at-append (λ x. x == sep) (padded b) sep (padded c)
            (All-padded (digit-is_no sep n) b) is_sep
          ∙ ap (λ l. padded b ∷ l)
              (split_at-none (λ x. x == sep) (padded c) (All-padded (digit-is_no sep n) c)))

replace_char-none : (c d : ℕ) (s : Text) → All (λ x. (x == c) ≡ false) s → replace_char c d s ≡ s
unfolding replace_char
replace_char-none c d [] h = refl
replace_char-none c d (x ∷ s) h = rw h.0 (ap (λ l. x ∷ l) (replace_char-none c d s h.1))

replace_char-append :
    (c d : ℕ) (s t : Text)
    → All (λ x. (x == c) ≡ false) s
    → All (λ x. (x == c) ≡ false) t
    → replace_char c d (s ++ c ∷ t) ≡ s ++ d ∷ t
unfolding replace_char
replace_char-append c d [] t h k =
    let same : (c == c) ≡ true = ground arith in
    rw same (ap (λ l. d ∷ l) (replace_char-none c d t k))
replace_char-append c d (x ∷ s) t h k = rw h.0 (ap (λ l. x ∷ l) (replace_char-append c d s t h.1 k))

separators : (is_whitespace 45 ≡ false) × (is_whitespace 84 ≡ false) × (is_whitespace 58 ≡ false)
unfolding is_whitespace
separators = (refl, refl, refl)

-- The notation is taken apart at its `T`.
date_and_time-append :
    (x : Date) (hour min sec : ℕ)
    → date_and_time (replace_char 84 32 (trim (date_text x ++ 84 ∷ time_text hour min sec)))
      ≡ (date_text x, time_text hour min sec)
unfolding date_and_time date_text time_text is_digit
date_and_time-append x hour min sec =
    let d = date_text x in
    let t = time_text hour min sec in
    let whole : All (λ c. is_whitespace c ≡ false) (d ++ 84 ∷ t) =
      All-append _ d (84 ∷ t) (All-fields digit-is_no_space 45 x.year x.month x.day separators.0)
        (separators.1, All-fields digit-is_no_space 58 hour min sec separators.2) in
    let no_t = digit-is_no 84 refl in
    rw (
      date_and_time,
      trim-none (d ++ 84 ∷ t) whole,
      replace_char-append 84 32 d t (All-fields no_t 45 x.year x.month x.day refl)
          (All-fields no_t 58 hour min sec refl),
      split_once-append 32 d t (All-fields (digit-is_no 32 refl) 45 x.year x.month x.day refl),
    )

date_parts-padded :
    (y m d : ℕ)
    → y < 2 ^ 32
    → m < 2 ^ 32
    → d < 2 ^ 32
    → date_parts (padded y ∷ padded m ∷ padded d ∷ []) ≡ some (y, m, d)
unfolding date_parts
date_parts-padded y m d hy hm hd = rw (
  parse_unsigned-padded (2 ^ 63 - 1) y (omega arith) (omega arith),
  parse_unsigned-padded (2 ^ 32 - 1) m (omega arith) (omega arith),
  parse_unsigned-padded (2 ^ 32 - 1) d (omega arith) (omega arith),
)

time_part-padded :
    (i n : ℕ) (parts : List Text)
    → get_elem? parts i ≡ some (padded n)
    → n < 2 ^ 32
    → time_part i parts ≡ n
unfolding time_part
time_part-padded i n parts e h =
    rw (e, time_part, parse_unsigned-padded (2 ^ 32 - 1) n (omega arith) (omega arith))

instant-padded :
    (y m d hour min sec : ℕ)
    → hour ≤ 23
    → min ≤ 59
    → sec ≤ 60
    → instant (y, m, d) (padded hour ∷ padded min ∷ padded sec ∷ [])
      ≡ some (days_from_civil y m d * 86400000 + (hour * 3600 + min * 60 + sec) * 1000)
unfolding instant is_plausible_time
instant-padded y m d hour min sec h k l =
    let parts = padded hour ∷ padded min ∷ padded sec ∷ [] in
    ground (
      arith,
      time_part-padded 0 hour parts refl (omega arith),
      time_part-padded 1 min parts refl (omega arith),
      time_part-padded 2 sec parts refl (omega arith),
    )

month_length-le : (y m : ℕ) → month_length y m ≤ 31
unfolding month_length
month_length-le y m = ground arith

-- A day of the calendar is plausible until the end of the year 9999.
date-is_plausible_date :
    (x : Date) → IsDate x → x.year ≤ 9999 → is_plausible_date (x.year, x.month, x.day) ≡ true
unfolding is_plausible_date
date-is_plausible_date x h late = ground (
  arith,
  h.recent,
  h.month_low,
  h.month_high,
  h.day_low,
  h.day_high,
  month_length-le x.year x.month,
)

-- The ISO 8601 notation of a time on the day that comes `n` days after 1 January 1970, the year
-- 10000 excluded, is read as the milliseconds from the start of 1970 to that time.
pub date_str_to_epoch_ms-date_text :
    (n hour min sec : ℕ)
    → n < 2932897
    → hour ≤ 23
    → min ≤ 59
    → sec ≤ 60
    → date_str_to_epoch_ms (date_text (date n) ++ 84 ∷ time_text hour min sec)
      ≡ some (n * 86400000 + (hour * 3600 + min * 60 + sec) * 1000)
unfolding date_str_to_epoch_ms date_text time_text is_digit
date_str_to_epoch_ms-date_text n hour min sec small h k l =
    let x = date n in
    let ok = date-IsDate n in
    let year = date-year n small in
    let length_le = month_length-le x.year x.month in
    rw
      (
        date_str_to_epoch_ms,
        date_and_time-append x hour min sec,
        split_at-fields 45 x.year x.month x.day refl,
        date_parts-padded x.year x.month x.day (omega arith) (omega (arith, ok.month_high))
            (omega (arith, ok.day_high, length_le)),
        date-is_plausible_date x ok year,
        date_and_time-append x hour min sec,
        split_at-fields 58 hour min sec refl,
        instant-padded x.year x.month x.day hour min sec h k l,
      )
      (ap (λ days. some (days * 86400000 + (hour * 3600 + min * 60 + sec) * 1000)) (days_of-date n))
