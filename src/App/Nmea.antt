-- ===== src/App/Nmea.antt =====
-- apps/gateway/app_main.cpp: the sentence with the time that a GPS receiver sends, its checksum and the
-- fields read from it. `memory` is what stands from the line on, also behind its `len` characters.
pub mod Checksum
pub mod Fields
use Prim.Native.Nat.{bit_xor}
use bm_sbc.Prelude.{
  ℕ, zero, suc, ◌+◌, ◌-◌, ◌*◌, ◌%◌, Bool, false, not, Option, none, some, List, [], ◌∷◌, ltb, leb,
  ◌==◌, ◌&&◌, ◌||◌, if◌then◌else◌, take, drop, get_elem?, c_string, ℤ, pos, negsuc, pos_part,
  neg_part,
}
use bm_sbc.Calendar.{shift, timegm_tm}
use bm_sbc.Core.Number.{skip_space, strtoull}

-- The loop of `nmea_checksum_valid`, with `left` = len - idx: the checksum, and what stands at the end.
unfoldable pub checksum_loop : ℕ → ℕ → List ℕ → ℕ × List ℕ
checksum_loop zero checksum memory = (checksum, memory)
checksum_loop (suc left) checksum [] = (checksum, [])
checksum_loop (suc left) checksum (c ∷ cs) =
    let rest = checksum_loop left (bit_xor checksum c) cs in
    if c == b'*' then (checksum, c ∷ cs) else rest

-- `nmea_checksum_valid`.
unfoldable pub nmea_checksum_valid : List ℕ → ℕ → Bool
unfolding checksum_loop
nmea_checksum_valid memory len =
    let (checksum, rest) = checksum_loop (len - 1) 0 (drop 1 memory) in
    (strtoull 16 (c_string (drop 1 rest))).0 % 256 == checksum

-- A directive %2d of `sscanf`: spaces, then up to two characters, a sign and digits.
pub digits_up_to : ℕ → ℕ → List ℕ → ℕ × List ℕ
digits_up_to zero value cs = (value, cs)
digits_up_to (suc width) value [] = (value, [])
digits_up_to (suc width) value (c ∷ cs) =
    let rest = digits_up_to width (value * 10 + (c - b'0')) cs in
    if leb b'0' c && leb c b'9' then rest else (value, c ∷ cs)

abbrev pub negated : ℕ → ℤ
negated zero = pos 0
negated (suc n) = negsuc n

abbrev pub starts_digit : List ℕ → Bool
starts_digit [] = false
starts_digit (c ∷ cs) = leb b'0' c && leb c b'9'

abbrev pub signed_digit : Bool → List ℕ → Option (ℤ × List ℕ)
signed_digit minus cs =
    let (value, rest) = digits_up_to 1 0 cs in
    if starts_digit cs then some ((if minus then negated value else pos value), rest) else none

abbrev pub two_digits : List ℕ → Option (ℤ × List ℕ)
two_digits [] = none
two_digits (c ∷ cs) =
    let (value, rest) = digits_up_to 2 0 (c ∷ cs) in
    if c == b'-' || c == b'+'
    then signed_digit (c == b'-') cs
    else if starts_digit (c ∷ cs)
    then some (pos value, rest)
    else none

pub scan_2d : List ℕ → Option (ℤ × List ℕ)
unfolding digits_up_to
scan_2d cs = two_digits (skip_space cs)

infixl 5 ◌>>=◌
abbrev pub ◌>>=◌ : {A B : Type 0} → Option A → (A → Option B) → Option B
none >>= f = none
some a >>= f = f a

abbrev pub expect : ℕ → List ℕ → Option (List ℕ)
expect d [] = none
expect d (c ∷ cs) = if c == d then some cs else none

-- "%2d%2d%2d.%2d" and "%2d%2d%2d", with all of their conversions.
pub scan_time : List ℕ → Option (ℤ × ℤ × ℤ × ℤ)
scan_time field = do
  (hour, cs) ← scan_2d field
  (min, cs) ← scan_2d cs
  (sec, cs) ← scan_2d cs
  cs ← expect b'.' cs
  (centisec, cs) ← scan_2d cs
  some (hour, min, sec, centisec)

pub scan_date : List ℕ → Option (ℤ × ℤ × ℤ)
scan_date field = do
  (day, cs) ← scan_2d field
  (mon, cs) ← scan_2d cs
  (year, cs) ← scan_2d cs
  some (day, mon, year)

abbrev pub put_front : ℕ → List (List ℕ) → List (List ℕ)
put_front c [] = (c ∷ []) ∷ []
put_front c (field ∷ fields) = (c ∷ field) ∷ fields

-- The loop that cuts the line at ',' and '*', at most as often as the number says.
pub split_fields : ℕ → List ℕ → List (List ℕ)
split_fields zero cs = cs ∷ []
split_fields (suc n) [] = [] ∷ []
split_fields (suc n) (c ∷ cs) =
    let cut = [] ∷ split_fields n cs in
    let more = put_front c (split_fields (suc n) cs) in if c == b',' || c == b'*' then cut else more

-- `undefined` is a read of an element of `fields` that was never set.
pub data Rmc : Type 0 where
  rejected undefined : Rmc
  time_of : ℕ → ℤ → Rmc  -- tv_sec, tv_nsec

abbrev pub nanoseconds : ℤ → ℤ
nanoseconds (pos n) = pos (n * 10000000)
nanoseconds (negsuc n) = negsuc ((n + 1) * 10000000 - 1)

abbrev pub from_epoch : ℤ → Option ℕ → Rmc
from_epoch centisec none = rejected
from_epoch centisec (some seconds) = time_of seconds (nanoseconds centisec)

abbrev pub to_epoch : ℤ × ℤ × ℤ × ℤ → Option (ℤ × ℤ × ℤ) → Rmc
to_epoch time none = rejected
to_epoch (hour, min, sec, centisec) (some (day, mon, year)) = from_epoch centisec (
    timegm_tm (record {
      tm_year = shift year 100 0;
      tm_mon = shift mon 0 1;
      tm_mday = day;
      tm_hour = hour;
      tm_min = min;
      tm_sec = sec;
    }))

abbrev pub read_date : ℤ × ℤ × ℤ × ℤ → Option (List ℕ) → Rmc
read_date time none = undefined
read_date time (some field) = to_epoch time (scan_date (c_string field))

abbrev pub then_date : List (List ℕ) → Option (ℤ × ℤ × ℤ × ℤ) → Rmc
then_date fields none = rejected
then_date fields (some time) = read_date time (get_elem? fields 9)

abbrev pub read_time : List (List ℕ) → Option (List ℕ) → Rmc
read_time fields none = undefined
read_time fields (some field) = then_date fields (scan_time (c_string field))

-- `parse_nmea_rmc`, with MAX_NMEA_RMC_LEN = 82, on a line that is not null.
pub parse_nmea_rmc : List ℕ → ℕ → Rmc
unfolding nmea_checksum_valid split_fields scan_time scan_date
parse_nmea_rmc memory len =
    let fields = split_fields 11 (take len memory) in
    if ltb 82 len
    then rejected
    else if not (nmea_checksum_valid memory len)
    then rejected
    else read_time fields (get_elem? fields 1)

-- What the line holds afterwards: the separators that were cut at, and only those, are zeros.
pub cut_line : ℕ → List ℕ → List ℕ
cut_line zero cs = cs
cut_line (suc n) [] = []
cut_line (suc n) (c ∷ cs) =
    let cut = 0 ∷ cut_line n cs in
    let more = c ∷ cut_line (suc n) cs in if c == b',' || c == b'*' then cut else more

pub line_after : List ℕ → ℕ → List ℕ
unfolding nmea_checksum_valid cut_line
line_after memory len =
    if ltb 82 len || not (nmea_checksum_valid memory len)
    then take len memory
    else cut_line 11 (take len memory)
