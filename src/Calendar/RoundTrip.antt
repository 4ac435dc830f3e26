-- ===== src/Calendar/RoundTrip.antt =====
-- Every date of the calendar comes back from `timegm` and `gmtime_r`.
use bm_sbc.Prelude.{ℕ, zero, suc, ◌+◌, ◌-◌, ◌*◌, ◌/◌, ◌%◌, ◌≤◌, ◌<◌, ◌≡◌, ap, ◌∙◌, some, arith}
use bm_sbc.Calendar.{
  Tm, days_in_year, days_in_month, days_of, walk, day_seconds, tm_of, tm_of_year, timegm_of, timegm,
  gmtime,
}

module _ (size : ℕ → ℕ) where
  walk_lem :
      (k fuel first last rest : ℕ)
      → k < fuel
      → last ≡ first + k
      → rest < size last
      → walk size fuel first (days_of size k first + rest) ≡ (last, rest)
  unfolding walk days_of
  walk_lem k zero first last rest h e lt = elim h [ ]
  walk_lem zero (suc fuel) first last rest h e lt =
      let same : last ≡ first = omega (arith, e) in ground (arith, ap size same)
  walk_lem (suc k) (suc fuel) first last rest h e lt =
      let later = walk_lem k fuel (suc first) last rest (omega arith) (omega (arith, e)) lt in
      let over : days_of size (suc k) first + rest - size first
          ≡ days_of size k (suc first) + rest =
        omega arith in
      rw over (ground arith)

  -- A block lies before the end of those up to a later one.
  days_of_part :
      (m n first last : ℕ)
      → m < n
      → last ≡ first + m
      → days_of size m first + size last ≤ days_of size n first
  unfolding days_of
  days_of_part m zero first last lt e = elim lt [ ]
  days_of_part zero (suc n) first last lt e =
      let same : last ≡ first = omega (arith, e) in omega (arith, ap size same)
  days_of_part (suc m) (suc n) first last lt e =
      omega (arith, days_of_part m n (suc first) last (omega arith) (omega (arith, e)))

  count-le-days : (n first : ℕ) → ((i : ℕ) → 1 ≤ size i) → n ≤ days_of size n first
  unfolding days_of
  count-le-days zero first each = omega arith
  count-le-days (suc n) first each = omega (arith, each first, count-le-days n (suc first) each)

days_in_year-pos : (y : ℕ) → 1 ≤ days_in_year y
unfolding days_in_year
days_in_year-pos y = ground arith

twelve_months : (y : ℕ) → days_of (days_in_month y) 12 0 ≡ days_in_year y
unfolding days_of days_in_month days_in_year
twelve_months y = ground arith

pub days_in_month-le : (y m : ℕ) → days_in_month y m ≤ 31
unfolding days_in_month
days_in_month-le y m = ground arith

pub record IsDate (t : Tm) : Type 0 where
  pub year_in : 1970 ≤ t.year
  pub month_in : (1 ≤ t.month) × (t.month ≤ 12)
  pub day_in : (1 ≤ t.day) × (t.day ≤ days_in_month t.year (t.month - 1))
  pub hour_in : t.hour < 24
  pub minute_in : t.minute < 60
  pub second_in : t.second < 60

module _ (t : Tm) (valid : IsDate t) where
  abbrev days : ℕ
  days =
      days_of days_in_year (t.year - 1970) 1970
      + (days_of (days_in_month t.year) (t.month - 1) 0 + (t.day - 1))

  abbrev of_day : ℕ
  of_day = t.hour * 3600 + t.minute * 60 + t.second

  seconds_of : timegm t ≡ some (days * day_seconds + of_day)
  unfolding timegm_of
  seconds_of =
      let months = t.year * 12 + t.month - (0 + 1) in
      let year : months / 12 ≡ t.year = omega (arith, valid.month_in) in
      let month : months % 12 ≡ t.month - 1 = omega (arith, valid.month_in) in
      rw (year, month) (ground (arith, valid.day_in, valid.year_in))

  abbrev in_year : ℕ
  in_year = days_of (days_in_month t.year) (t.month - 1) 0 + (t.day - 1)

  day_of : (days * day_seconds + of_day) / day_seconds ≡ days
  day_of = omega (arith, valid.hour_in, valid.minute_in, valid.second_in)

  year_found : walk days_in_year (days + 1) 1970 days ≡ (t.year, in_year)
  year_found =
      walk_lem days_in_year (t.year - 1970) (days + 1) 1970 t.year in_year
        (omega (arith, count-le-days days_in_year (t.year - 1970) 1970 days_in_year-pos))
        (omega (arith, valid.year_in))
        (omega (
          arith,
          days_of_part (days_in_month t.year) (t.month - 1) 12 0 (t.month - 1)
              (omega (arith, valid.month_in)) (omega arith),
          twelve_months t.year,
          valid.day_in,
        ))

  month_found : walk (days_in_month t.year) 12 0 in_year ≡ (t.month - 1, t.day - 1)
  month_found =
      walk_lem (days_in_month t.year) (t.month - 1) 12 0 (t.month - 1) (t.day - 1)
        (omega (arith, valid.month_in)) (omega arith) (omega (arith, valid.day_in))

  same_fields : tm_of (days * day_seconds + of_day) t.year (t.month - 1, t.day - 1) ≡ t
  same_fields =
      ground (arith, valid.month_in, valid.day_in, valid.hour_in, valid.minute_in, valid.second_in)

  comes_back : gmtime (days * day_seconds + of_day) ≡ t
  unfolding gmtime
  comes_back =
      let s = days * day_seconds + of_day in
      ap (λ d. tm_of_year s (walk days_in_year (d + 1) 1970 d)) day_of
      ∙ (ap (tm_of_year s) year_found ∙ (ap (tm_of s t.year) month_found ∙ same_fields))

  pub gmtime-timegm : (seconds : ℕ) × (timegm t ≡ some seconds) × (gmtime seconds ≡ t)
  gmtime-timegm = (days * day_seconds + of_day, seconds_of, comes_back)
