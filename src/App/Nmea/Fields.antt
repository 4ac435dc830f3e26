-- ===== src/App/Nmea/Fields.antt =====
-- What apps/gateway/app_main.cpp reads from a well-formed sentence.
use mathlib.Core.Path.{subst}
use mathlib.Core.Option.{some_inj}
use bm_sbc.Prelude.{
  ℕ, zero, suc, ◌+◌, ◌-◌, ◌*◌, ◌/◌, ◌%◌, ◌≤◌, ◌<◌, ◌≡◌, ◌≢◌, refl, ap, ◌∙◌, true, some, List, [],
  ◌∷◌, ◌++◌, length, take-append, get_elem?, c_string, All, ℤ, pos, pos_part, arith,
}
use bm_sbc.Core.Number.{skip_space, is_space}
use bm_sbc.Calendar.{Tm, timegm, shift, timegm_tm, gmtime}
use bm_sbc.Calendar.RoundTrip.{IsDate, days_in_month-le, gmtime-timegm}
use bm_sbc.App.Nmea.{
  digits_up_to, scan_2d, scan_time, scan_date, split_fields, nmea_checksum_valid, time_of,
  parse_nmea_rmc, read_time, then_date, read_date, to_epoch, from_epoch,
}

-- A number in two digits.
abbrev pub two : ℕ → List ℕ
two n = (b'0' + n / 10) ∷ (b'0' + n % 10) ∷ []

scan_two : (n : ℕ) (rest : List ℕ) → n < 100 → scan_2d (two n ++ rest) ≡ some (pos n, rest)
unfolding scan_2d skip_space is_space digits_up_to
scan_two n rest lt = ground arith

scan_time-two :
    (h m s c : ℕ) (rest : List ℕ)
    → h < 100
    → m < 100
    → s < 100
    → c < 100
    → scan_time (two h ++ (two m ++ (two s ++ b'.' ∷ (two c ++ rest))))
      ≡ some (pos h, pos m, pos s, pos c)
unfolding scan_time
scan_time-two h m s c rest hh hm hs hc = simp (
  scan_two h (two m ++ (two s ++ b'.' ∷ (two c ++ rest))) hh,
  scan_two m (two s ++ b'.' ∷ (two c ++ rest)) hm,
  scan_two s (b'.' ∷ (two c ++ rest)) hs,
  scan_two c rest hc,
)

scan_date-two :
    (d m y : ℕ)
    → d < 100
    → m < 100
    → y < 100
    → scan_date (two d ++ (two m ++ two y)) ≡ some (pos d, pos m, pos y)
unfolding scan_date
scan_date-two d m y hd hm hy =
    simp (scan_two d (two m ++ two y) hd, scan_two m (two y) hm, scan_two y [] hy)

-- A text that holds no separator and no zero.
abbrev pub IsField : List ℕ → Type 0
IsField cs = All (λ c. (c ≢ b',') × (c ≢ b'*') × (c ≢ 0)) cs

-- Fields, each with a comma behind it, and the rest of the line.
unfoldable pub comma_joined : List (List ℕ) → List ℕ → List ℕ
comma_joined [] rest = rest
comma_joined (field ∷ fields) rest = field ++ b',' ∷ comma_joined fields rest

split_front :
    (field rest : List ℕ) (n : ℕ)
    → IsField field
    → split_fields (suc n) (field ++ b',' ∷ rest) ≡ field ∷ split_fields n rest
unfolding split_fields
split_front [] rest n plain = refl
split_front (c ∷ field) rest n plain = ground (arith, split_front field rest n plain.1, plain.0)

split-comma_joined :
    (fields : List (List ℕ)) (rest : List ℕ) (n i : ℕ) (field : List ℕ)
    → All IsField fields
    → length fields ≤ n
    → get_elem? fields i ≡ some field
    → get_elem? (split_fields n (comma_joined fields rest)) i ≡ some field
unfolding comma_joined
split-comma_joined [] rest n i field plain le at = cc
split-comma_joined (f ∷ fields) rest zero i field plain le at = elim le [ ]
split-comma_joined (f ∷ fields) rest (suc n) zero field plain le at =
    ap (λ fs. get_elem? fs 0) (split_front f (comma_joined fields rest) n plain.0) ∙ at
split-comma_joined (f ∷ fields) rest (suc n) (suc i) field plain le at =
    ap (λ fs. get_elem? fs (suc i)) (split_front f (comma_joined fields rest) n plain.0)
    ∙ split-comma_joined fields rest n i field plain.1 (omega arith) at

c_string-IsField : (field : List ℕ) → IsField field → c_string field ≡ field
c_string-IsField [] plain = refl
c_string-IsField (c ∷ field) plain = ground (arith, c_string-IsField field plain.1, plain.0)

IsField-at :
    (fields : List (List ℕ)) (i : ℕ) (field : List ℕ)
    → All IsField fields
    → get_elem? fields i ≡ some field
    → IsField field
IsField-at [] i field plain at = cc
IsField-at (f ∷ fields) zero field plain at = subst IsField (some_inj.0 at) plain.0
IsField-at (f ∷ fields) (suc i) field plain at = IsField-at fields i field plain.1 at

scanned_time :
    (fs : List (List ℕ)) (field : List ℕ) (x : ℤ × ℤ × ℤ × ℤ)
    → c_string field ≡ field
    → scan_time field ≡ some x
    → read_time fs (some field) ≡ read_date x (get_elem? fs 9)
scanned_time fs field x whole scanned = ap (then_date fs) (ap scan_time whole ∙ scanned)

scanned_date :
    (time : ℤ × ℤ × ℤ × ℤ) (field : List ℕ) (x : ℤ × ℤ × ℤ)
    → c_string field ≡ field
    → scan_date field ≡ some x
    → read_date time (some field) ≡ to_epoch time (some x)
scanned_date time field x whole scanned = ap (to_epoch time) (ap scan_date whole ∙ scanned)

abbrev pub time_text : Tm → ℕ → List ℕ
time_text t c = two t.hour ++ (two t.minute ++ (two t.second ++ b'.' ∷ (two c ++ [])))

abbrev pub date_text : Tm → List ℕ
date_text t = two t.day ++ (two t.month ++ two (t.year - 2000))

-- The time that is made of the fields.
epoch_of :
    (t : Tm)
    → 2000 ≤ t.year
    → timegm_tm (record {
      tm_year = shift (pos (t.year - 2000)) 100 0;
      tm_mon = shift (pos t.month) 0 1;
      tm_mday = pos t.day;
      tm_hour = pos t.hour;
      tm_min = pos t.minute;
      tm_sec = pos t.second;
    })
      ≡ timegm t
unfolding timegm_tm
epoch_of t since =
    let year : pos_part (shift (shift (pos (t.year - 2000)) 100 0) 1900 0) ≡ t.year =
      ground arith in
    let month : shift (shift (pos t.month) 0 1) 1 0 ≡ pos t.month = ground arith in
    rw (year, month) refl

module _ (fields : List (List ℕ)) (rest beyond : List ℕ) (t : Tm) (c : ℕ)
    (plain : All IsField fields) (few : length fields ≤ 11)
    (time : get_elem? fields 1 ≡ some (time_text t c))
    (date : get_elem? fields 9 ≡ some (date_text t)) where
  abbrev pub line : List ℕ
  line = comma_joined fields rest

  abbrev found : List (List ℕ)
  found = split_fields 11 line

  parsed :
      length line ≤ 82
      → nmea_checksum_valid (line ++ beyond) (length line) ≡ true
      → parse_nmea_rmc (line ++ beyond) (length line) ≡ read_time found (get_elem? found 1)
  unfolding parse_nmea_rmc
  parsed short checked = rw (take-append (length line) line beyond refl) (ground arith)

  time_read :
      t.hour < 100
      → t.minute < 100
      → t.second < 100
      → c < 100
      → read_time found (get_elem? found 1)
        ≡ read_date (pos t.hour, pos t.minute, pos t.second, pos c) (get_elem? found 9)
  time_read hh hm hs hc =
      ap (read_time found) (split-comma_joined fields rest 11 1 (time_text t c) plain few time)
      ∙ scanned_time found (time_text t c) (pos t.hour, pos t.minute, pos t.second, pos c)
          (c_string-IsField (time_text t c) (IsField-at fields 1 (time_text t c) plain time))
          (scan_time-two t.hour t.minute t.second c [] hh hm hs hc)

  date_read :
      (h m s c : ℕ)
      → t.day < 100
      → t.month < 100
      → t.year < 2100
      → read_date (pos h, pos m, pos s, pos c) (get_elem? found 9)
        ≡ to_epoch (pos h, pos m, pos s, pos c) (some (pos t.day, pos t.month, pos (t.year - 2000)))
  date_read h m s c hd hm hy =
      ap (read_date (pos h, pos m, pos s, pos c))
        (split-comma_joined fields rest 11 9 (date_text t) plain few date)
      ∙ scanned_date (pos h, pos m, pos s, pos c) (date_text t)
          (pos t.day, pos t.month, pos (t.year - 2000))
          (c_string-IsField (date_text t) (IsField-at fields 9 (date_text t) plain date))
          (scan_date-two t.day t.month (t.year - 2000) hd hm (omega arith))

  -- A line of at most 82 characters that passes the test of its checksum, with the time of day in its
  -- second field and the date in its tenth, in two digits each, and a year from 2000 to 2099: the
  -- clock is given that time, to a hundredth of a second, and the time is that date of the calendar.
  pub parse_nmea_rmc_lem :
      IsDate t
      → 2000 ≤ t.year
      → t.year < 2100
      → c < 100
      → length line ≤ 82
      → nmea_checksum_valid (line ++ beyond) (length line) ≡ true
      → (seconds : ℕ) × (parse_nmea_rmc (line ++ beyond) (length line)
          ≡ time_of seconds (pos (c * 10000000)))
        × (gmtime seconds ≡ t)
  parse_nmea_rmc_lem valid since until hundredths short checked =
      let (seconds, epoch, back) = gmtime-timegm t valid in
      let day = days_in_month-le t.year (t.month - 1) in
      (
        seconds,
        parsed short checked
            ∙ (time_read (omega arith) (omega arith) (omega arith) hundredths
                ∙ (date_read t.hour t.minute t.second c (omega (arith, valid.day_in, day))
                      (omega (arith, valid.month_in)) until
                    ∙ ap (from_epoch (pos c)) (epoch_of t since ∙ epoch))),
        back,
      )
