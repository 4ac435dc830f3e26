-- ===== src/Platform/Rtc.antt =====
-- The clock, over CLOCK_REALTIME: src/platform/linux/platform_linux.cpp. A time of the clock is in
-- seconds and nanoseconds.
use bm_sbc.Prelude.{
  ℕ, ◌+◌, ◌-◌, ◌*◌, ◌/◌, ◌%◌, ◌^◌, ◌≡◌, ◌<◌, refl, ap, ◌∙◌, Option, none, some, suc, ℤ, pos, negsuc,
  arith,
}
use bm_sbc.Calendar.{Tm, timegm, minus, shift, StructTm, timegm_tm, struct_of, gmtime_tm}
use bm_sbc.Calendar.RoundTrip.{IsDate, days_in_month-le, gmtime-timegm}
use bm_sbc.Net.Errors.{BmErr, bm_ok, bm_eio, bm_eperm}

pub record RtcTimeAndDate : Type 0 where
  pub year : ℕ  -- uint16_t
  pub month : ℕ  -- uint8_t, as are those down to the second
  pub day : ℕ
  pub hour : ℕ
  pub minute : ℕ
  pub second : ℕ
  pub ms : ℕ  -- uint16_t

-- What `clock_settime` does: EPERM and EACCES are `denied`.
pub data SetClock : Type 0 where
  clock_set denied failed : SetClock

abbrev pub set_err : SetClock → BmErr
set_err clock_set = bm_ok
set_err denied = bm_eperm
set_err failed = bm_eio

abbrev pub with_ms : ℕ → Option ℕ → Option (ℕ × ℕ)
with_ms ms none = none
with_ms ms (some seconds) = some (seconds, ms * 1000000)

-- The `struct tm` that `bm_rtc_set` fills in.
abbrev pub broken_down : RtcTimeAndDate → StructTm
broken_down t = record {
  tm_year = minus t.year 1900;
  tm_mon = minus t.month 1;
  tm_mday = pos t.day;
  tm_hour = pos t.hour;
  tm_min = pos t.minute;
  tm_sec = pos t.second;
}

-- `bm_rtc_set`: what is returned, and the time that the clock is given; `none` is one before 1970.
pub bm_rtc_set : SetClock → RtcTimeAndDate → BmErr × Option (ℕ × ℕ)
bm_rtc_set answer t = (set_err answer, with_ms t.ms (timegm_tm (broken_down t)))

-- A conversion to an unsigned type with that many values.
abbrev pub to_unsigned : ℕ → ℤ → ℕ
to_unsigned range (pos n) = n % range
to_unsigned range (negsuc n) = (range - suc n % range) % range

-- What `bm_rtc_get` reads from a `struct tm`.
unfoldable pub rtc_of : StructTm → ℕ → RtcTimeAndDate
rtc_of t nanoseconds = record {
  year = to_unsigned 65536 (shift t.tm_year 1900 0);
  month = to_unsigned 256 (shift t.tm_mon 1 0);
  day = to_unsigned 256 t.tm_mday;
  hour = to_unsigned 256 t.tm_hour;
  minute = to_unsigned 256 t.tm_min;
  second = to_unsigned 256 t.tm_sec;
  ms = nanoseconds / 1000000 % 65536;
}

-- `bm_rtc_get`, from what `clock_gettime` gives.
pub bm_rtc_get : Option (ℕ × ℕ) → BmErr × Option RtcTimeAndDate
bm_rtc_get none = (bm_eio, none)
bm_rtc_get (some (seconds, nanoseconds)) = (bm_ok, some (rtc_of (gmtime_tm seconds) nanoseconds))

-- `bm_rtc_get_micro_seconds`: what is returned, and what is written where a place is given.
pub bm_rtc_get_micro_seconds : Option (ℕ × ℕ) → ℕ × Option RtcTimeAndDate
bm_rtc_get_micro_seconds none = (0, none)
bm_rtc_get_micro_seconds (some (seconds, nanoseconds)) = (
  (seconds * 1000000 + nanoseconds / 1000) % 2 ^ 64,
  some (rtc_of (gmtime_tm seconds) nanoseconds),
)

-- The date as the calendar has it.
abbrev pub civil : RtcTimeAndDate → Tm
civil t = record {
  year = t.year;
  month = t.month;
  day = t.day;
  hour = t.hour;
  minute = t.minute;
  second = t.second;
}

-- A date of the calendar from 1970 on, in the types of the fields.
pub record IsTime (t : RtcTimeAndDate) : Type 0 where
  pub date : IsDate (civil t)
  pub year_in : t.year < 65536
  pub ms_in : t.ms < 1000

shift-minus : (n m : ℕ) → shift (minus n m) m 0 ≡ pos n
shift-minus n m = ground arith

set_lem : (t : RtcTimeAndDate) → timegm_tm (broken_down t) ≡ timegm (civil t)
unfolding timegm_tm
set_lem t = rw (shift-minus t.year 1900, shift-minus t.month 1) refl

get_lem : (t : RtcTimeAndDate) → IsTime t → rtc_of (struct_of (civil t)) (t.ms * 1000000) ≡ t
unfolding rtc_of
get_lem t valid =
    rw (shift-minus t.year 1900, shift-minus t.month 1)
      (ground (arith, valid.date, days_in_month-le t.year (t.month - 1)))

-- Reading a time of the clock that was set: `bm_rtc_get` gives back every date of the calendar from
-- 1970 to 65535, to the millisecond; and `bm_rtc_get_micro_seconds` counts whole milliseconds.
pub rtc_get-rtc_set :
    (t : RtcTimeAndDate)
    → IsTime t
    → (seconds : ℕ) × (bm_rtc_set clock_set t ≡ (bm_ok, some (seconds, t.ms * 1000000)))
      × (bm_rtc_get (some (seconds, t.ms * 1000000)) ≡ (bm_ok, some t))
      × (bm_rtc_get_micro_seconds (some (seconds, t.ms * 1000000))
          ≡ ((seconds * 1000000 + t.ms * 1000) % 2 ^ 64, some t))
unfolding bm_rtc_set bm_rtc_get bm_rtc_get_micro_seconds gmtime_tm
rtc_get-rtc_set t valid =
    let (seconds, given, back) = gmtime-timegm (civil t) valid.date in
    let same : rtc_of (gmtime_tm seconds) (t.ms * 1000000) ≡ t =
      ap (λ u. rtc_of (struct_of u) (t.ms * 1000000)) back ∙ get_lem t valid in
    let thousand : t.ms * 1000000 / 1000 ≡ t.ms * 1000 = omega arith in
    (
      seconds,
      ap (λ s. (bm_ok, with_ms t.ms s)) (set_lem t ∙ given),
      ap (λ r. (bm_ok, some r)) same,
      rw (same, thousand) refl,
    )
