-- ===== src/Parse/Dates/Calendar.antt =====
-- The count of days against a calendar that goes from one day to the next.
use mathlib.Core.Path.{sym, subst, ap, ◌∙◌}
use sub_hub.Common.{
  ℕ, zero, suc, ◌+◌, ◌-◌, ◌*◌, ◌/◌, ◌%◌, ◌≤◌, ◌<◌, ◌≡◌, refl, Bool, false, not, ◌&&◌, ◌||◌, ◌==◌,
  leb, ltb, if◌then◌else◌, Bool-cases, inl, inr, arith,
}
use sub_hub.Parse.Dates.{days_from_civil}

-- The Gregorian calendar.
unfoldable pub is_leap : ℕ → Bool
is_leap y = y % 4 == 0 && (not (y % 100 == 0) || y % 400 == 0)

unfoldable pub month_length : ℕ → ℕ → ℕ
month_length y m =
    if m == 2
    then (if is_leap y then 29 else 28)
    else if m == 4 || m == 6 || m == 9 || m == 11
    then 30
    else 31

pub record Date : Type 0 where
  pub year : ℕ
  pub month : ℕ
  pub day : ℕ

unfoldable pub next_day : Date → Date
unfolding month_length
next_day x =
    if ltb x.day (month_length x.year x.month)
    then record x { day = x.day + 1 }
    else if ltb x.month 12
    then record { year = x.year; month = x.month + 1; day = 1 }
    else record { year = x.year + 1; month = 1; day = 1 }

-- A day of the calendar from 1970 on.
pub record IsDate (x : Date) : Type 0 where
  pub recent : 1970 ≤ x.year
  pub month_low : 1 ≤ x.month
  pub month_high : x.month ≤ 12
  pub day_low : 1 ≤ x.day
  pub day_high : x.day ≤ month_length x.year x.month

start_later :
    (m : ℕ)
    → 1 ≤ m
    → m < 12
    → (m == 2) ≡ false
    → (153 * ((m + 1 + 9) % 12) + 2) / 5
      ≡ (153 * ((m + 9) % 12) + 2) / 5 + (if m == 4 || m == 6 || m == 9 || m == 11 then 30 else 31)
start_later m h k n = ground arith

-- The days before the first of March of a year, the leap days of that year included.
year_days : ℕ → ℕ
year_days y =
    y / 400 * 146097
    + ((y - y / 400 * 400) * 365 + (y - y / 400 * 400) / 4 - (y - y / 400 * 400) / 100)

-- The days of a year before a month, the year taken from the first of March.
month_start : ℕ → ℕ
month_start m = (153 * ((m + 9) % 12) + 2) / 5

leap_step : (y : ℕ) → 1 ≤ y → year_days y ≡ year_days (y - 1) + (if is_leap y then 366 else 365)
unfolding is_leap year_days
leap_step y h = ground arith

year_days-recent : (y : ℕ) → 1969 ≤ y → 719162 ≤ year_days y
unfolding year_days
year_days-recent y h = ground arith

days_form :
    (y m d : ℕ)
    → 1 ≤ d
    → days_from_civil y m d
      ≡ year_days (y - (if leb m 2 then 1 else 0)) + (month_start m + d - 1) - 719468
unfolding days_from_civil year_days month_start
days_form y m d k = omega arith

month_start-later :
    (y m : ℕ)
    → 1 ≤ m
    → m < 12
    → (m == 2) ≡ false
    → month_start (m + 1) ≡ month_start m + month_length y m
unfolding month_length month_start
month_start-later y m h k n = ground (arith, start_later m h k n)

month_start-early : (m : ℕ) → 1 ≤ m → m ≤ 2 → 306 ≤ month_start m
unfolding month_start
month_start-early m h k = omega arith

abbrev pub days_of : Date → ℕ
days_of x = days_from_civil x.year x.month x.day

-- Within a month.
days-later :
    (y m d : ℕ)
    → 1970 ≤ y
    → 1 ≤ m
    → m ≤ 12
    → 1 ≤ d
    → days_from_civil y m (d + 1) ≡ days_from_civil y m d + 1
days-later y m d h l u k = ground (
  arith,
  days_form y m d,
  days_form y m (d + 1),
  year_days-recent (y - 1),
  year_days-recent y,
  month_start-early m,
  leap_step y,
)

-- From the end of February to March.
days-march : (y : ℕ) → 1970 ≤ y → days_from_civil y 3 1 ≡ days_from_civil y 2 (month_length y 2) + 1
unfolding month_length month_start
days-march y h = ground (
  arith,
  days_form y 2 (month_length y 2),
  days_form y 3 1,
  year_days-recent (y - 1),
  leap_step y,
)

month_length_low : (y m : ℕ) → 28 ≤ month_length y m
unfolding month_length
month_length_low y m = ground arith

days-next_month :
    (y m : ℕ)
    → 1970 ≤ y
    → 1 ≤ m
    → m < 12
    → days_from_civil y (m + 1) 1 ≡ days_from_civil y m (month_length y m) + 1
days-next_month y m h k l = elim (Bool-cases (m == 2)) [
  | inl e ↦
      let two : m ≡ 2 = ground arith in
      subst (λ n. days_from_civil y (n + 1) 1 ≡ days_from_civil y n (month_length y n) + 1)
        (sym two) (days-march y h)
  | inr e ↦ ground (
    arith,
    month_start-later y m k l e,
    days_form y (m + 1) 1,
    days_form y m (month_length y m),
    month_length_low y m,
    year_days-recent (y - 1),
    year_days-recent y,
    month_start-early m,
    leap_step y,
  )
]

days-next_year : (y : ℕ) → 1970 ≤ y → days_from_civil (y + 1) 1 1 ≡ days_from_civil y 12 31 + 1
unfolding days_from_civil
days-next_year y h = ground arith

december-length : (y : ℕ) → month_length y 12 ≡ 31
unfolding month_length
december-length y = refl

days_of-next_day : (x : Date) → IsDate x → days_of (next_day x) ≡ days_of x + 1
unfolding next_day
days_of-next_day x h = elim (Bool-cases (ltb x.day (month_length x.year x.month))) [
  | inl e ↦
      rw (e, next_day) (days-later x.year x.month x.day h.recent h.month_low h.month_high h.day_low)
  | inr e ↦
      let last : x.day ≡ month_length x.year x.month = ground (arith, h.day_high) in
      elim (Bool-cases (ltb x.month 12)) [
        | inl f ↦
            rw (e, f, next_day, last)
              (days-next_month x.year x.month h.recent h.month_low (ground arith))
        | inr f ↦
            let december : x.month ≡ 12 = ground (arith, h.month_high) in
            let new_year : x.day ≡ 31 =
              last ∙ ap (month_length x.year) december ∙ december-length x.year in
            rw (e, f, next_day, new_year, december) (days-next_year x.year h.recent)
      ]
]

next_day-IsDate : (x : Date) → IsDate x → IsDate (next_day x)
unfolding next_day month_length
next_day-IsDate x h = record {
  recent = ground (arith, h.recent);
  month_low = ground (arith, h.month_low);
  month_high = ground (arith, h.month_high);
  day_low = ground (arith, h.day_low);
  day_high = ground (arith, h.day_high, h.month_high);
}

-- The day that comes so many days after 1 January 1970.
unfoldable pub date : ℕ → Date
date zero = record { year = 1970; month = 1; day = 1 }
date (suc n) = next_day (date n)

pub date-IsDate : (n : ℕ) → IsDate (date n)
unfolding date month_length
date-IsDate zero = record {
  recent = omega arith;
  month_low = omega arith;
  month_high = omega arith;
  day_low = omega arith;
  day_high = omega arith;
}
date-IsDate (suc n) = next_day-IsDate (date n) (date-IsDate n)

pub days_of-date : (n : ℕ) → days_of (date n) ≡ n
unfolding date days_from_civil
days_of-date zero = refl
days_of-date (suc n) = days_of-next_day (date n) (date-IsDate n) ∙ omega (arith, days_of-date n)

year_days-late : (y : ℕ) → 9999 ≤ y → 3652059 ≤ year_days y
unfolding year_days
year_days-late y h = ground arith

year_days-later : (y : ℕ) → 10000 ≤ y → 3652425 ≤ year_days y
unfolding year_days
year_days-later y h = ground arith

-- 2932897 days after 1 January 1970 the year 10000 begins.
pub date-year : (n : ℕ) → n < 2932897 → (date n).year ≤ 9999
date-year n h =
    let x = date n in
    let ok = date-IsDate n in
    ground (
      arith,
      days_form x.year x.month x.day ok.day_low,
      days_of-date n,
      year_days-late (x.year - 1),
      year_days-later x.year,
      ok.day_low,
      ok.month_low,
      month_start-early x.month,
    )
