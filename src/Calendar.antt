-- ===== src/Calendar.antt =====
-- Civil time in UTC, as the C library converts it: `timegm` and `gmtime_r`, from 1970 on.
pub mod RoundTrip
use bm_sbc.Prelude.{
  ℕ, zero, suc, ◌+◌, ◌-◌, ◌*◌, ◌/◌, ◌%◌, Bool, true, false, Option, none, some, ltb, leb, ◌==◌,
  ◌||◌, ℤ, pos, negsuc, pos_part, neg_part, if◌then◌else◌,
}

-- A date and a time of day, with the year and the month as they are written.
pub record Tm : Type 0 where
  pub year : ℕ
  pub month : ℕ
  pub day : ℕ
  pub hour : ℕ
  pub minute : ℕ
  pub second : ℕ

unfoldable pub is_leap : ℕ → Bool
is_leap y = if y % 400 == 0 then true else if y % 100 == 0 then false else y % 4 == 0

pub days_in_year : ℕ → ℕ
unfolding is_leap
days_in_year y = if is_leap y then 366 else 365

-- Months are counted from 0.
unfoldable pub days_in_month : ℕ → ℕ → ℕ
unfolding is_leap
days_in_month y m =
    if m == 1
    then (if is_leap y then 29 else 28)
    else if (m == 3) || ((m == 5) || ((m == 8) || (m == 10)))
    then 30
    else 31

-- The days of some years, or months, from one on.
module _ (size : ℕ → ℕ) where
  pub days_of : ℕ → ℕ → ℕ
  days_of zero first = 0
  days_of (suc n) first = size first + days_of n (suc first)

  -- The year or month that a day lies in, and the day within it.
  pub walk : ℕ → ℕ → ℕ → ℕ × ℕ
  walk zero first n = (first, n)
  walk (suc fuel) first n =
      let later = walk fuel (suc first) (n - size first) in
      if ltb n (size first) then (first, n) else later

abbrev pub day_seconds : ℕ
day_seconds = 86400

-- `timegm` on any numbers from a year of 1 on; a month out of range counts into the year. `none` is a
-- time before 1970.
unfoldable pub timegm_of : (year : ℕ) (month day hour minute second : ℤ) → Option ℕ
unfolding days_of days_in_year days_in_month
timegm_of year month day hour minute second =
    let months = year * 12 + pos_part month - (neg_part month + 1) in
    let y = months / 12 in
    let days = days_of days_in_year (y - 1970) 1970 + days_of (days_in_month y) (months % 12) 0 in
    let up =
      (days + pos_part day) * day_seconds
      + pos_part hour * 3600
      + pos_part minute * 60
      + pos_part second in
    let down =
      (neg_part day + 1) * day_seconds
      + neg_part hour * 3600
      + neg_part minute * 60
      + neg_part second in
    if ltb y 1970 || ltb up down then none else some (up - down)

abbrev pub timegm : Tm → Option ℕ
timegm t = timegm_of t.year (pos t.month) (pos t.day) (pos t.hour) (pos t.minute) (pos t.second)

abbrev pub tm_of : ℕ → ℕ → ℕ × ℕ → Tm
tm_of seconds year (month, day) = record {
  year = year;
  month = month + 1;
  day = day + 1;
  hour = seconds % day_seconds / 3600;
  minute = seconds % 3600 / 60;
  second = seconds % 60;
}

abbrev pub tm_of_year : ℕ → ℕ × ℕ → Tm
tm_of_year seconds (year, rest) = tm_of seconds year (walk (days_in_month year) 12 0 rest)

-- `gmtime_r`.
pub gmtime : ℕ → Tm
unfolding walk days_in_year days_in_month
gmtime seconds =
    let day = seconds / day_seconds in tm_of_year seconds (walk days_in_year (day + 1) 1970 day)

-- Integers as the differences of natural numbers.
abbrev pub minus : ℕ → ℕ → ℤ
minus n m = if leb m n then pos (n - m) else negsuc (m - n - 1)

abbrev pub shift : (z : ℤ) (up down : ℕ) → ℤ
shift z up down = minus (pos_part z + up) (neg_part z + down)

-- `struct tm` as C has it: years since 1900, and months from 0.
pub record StructTm : Type 0 where
  pub tm_year : ℤ
  pub tm_mon : ℤ
  pub tm_mday : ℤ
  pub tm_hour : ℤ
  pub tm_min : ℤ
  pub tm_sec : ℤ

-- `timegm` and `gmtime_r` on it.
unfoldable pub timegm_tm : StructTm → Option ℕ
timegm_tm t =
    timegm_of (pos_part (shift t.tm_year 1900 0)) (shift t.tm_mon 1 0) t.tm_mday t.tm_hour t.tm_min
      t.tm_sec

abbrev pub struct_of : Tm → StructTm
struct_of t = record {
  tm_year = minus t.year 1900;
  tm_mon = minus t.month 1;
  tm_mday = pos t.day;
  tm_hour = pos t.hour;
  tm_min = pos t.minute;
  tm_sec = pos t.second;
}

unfoldable pub gmtime_tm : ℕ → StructTm
gmtime_tm seconds = struct_of (gmtime seconds)
