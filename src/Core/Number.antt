-- ===== src/Core/Number.antt =====
-- Numbers on the command line and in the init file: `strtoull` and `strtol` of the C library, and
-- `parse_hex64` of src/core/runtime.cpp.
pub mod RoundTrip
use bm_sbc.Prelude.{
  ℕ, ◌+◌, ◌-◌, ◌*◌, ◌%◌, ◌^◌, Bool, true, false, not, Option, none, some, List, [], ◌∷◌, ltb, leb,
  ◌==◌, ◌||◌, ◌&&◌, if◌then◌else◌, get_or, drop, is_empty, ℤ, pos, negsuc,
}

-- The value of a digit in a base up to 16; 255 for no digit.
unfoldable pub digit_value : ℕ → ℕ
digit_value c =
    if leb b'0' c && leb c b'9'
    then c - b'0'
    else if leb b'a' c && leb c b'f'
    then c - b'a' + 10
    else if leb b'A' c && leb c b'F'
    then c - b'A' + 10
    else 255

unfoldable pub is_digit : ℕ → ℕ → Bool
is_digit base c = ltb (digit_value c) base

-- The number that the digits at the front make, and what is left.
unfoldable pub scan_digits : ℕ → ℕ → List ℕ → ℕ × List ℕ
scan_digits base acc [] = (acc, [])
scan_digits base acc (c ∷ cs) =
    let rest = scan_digits base (acc * base + digit_value c) cs in
    if is_digit base c then rest else (acc, c ∷ cs)

unfoldable pub is_space : ℕ → Bool
is_space c = c == b' ' || (leb 9 c && leb c 13)

unfoldable pub skip_space : List ℕ → List ℕ
skip_space [] = []
skip_space (c ∷ cs) = let rest = skip_space cs in if is_space c then rest else c ∷ cs

abbrev pub sign : List ℕ → Bool × List ℕ
sign [] = (false, [])
sign (c ∷ cs) = if c == b'-' then (true, cs) else if c == b'+' then (false, cs) else (false, c ∷ cs)

-- In base 16 a prefix "0x" counts if a digit follows it.
unfoldable pub skip_prefix : ℕ → List ℕ → List ℕ
skip_prefix base cs =
    if (base == 16)
      && (get_or cs 0 0 == b'0')
      && (get_or cs 1 0 == b'x' || get_or cs 1 0 == b'X')
      && is_digit 16 (get_or cs 2 0)
    then drop 2 cs
    else cs

-- What a number at the front of a string is read as: its sign, its magnitude, and what follows it.
-- Without a digit it is 0, and all of the string is left.
unfoldable pub scan_number : ℕ → List ℕ → Bool × ℕ × List ℕ
scan_number base s =
    let (negative, cs) = sign (skip_space s) in
    let digits = skip_prefix base cs in
    let (value, rest) = scan_digits base 0 digits in
    if is_digit base (get_or digits 0 0) then (negative, value, rest) else (false, 0, s)

-- `strtoull`: above ULLONG_MAX that value, and a minus negates modulo 2^64.
unfoldable pub strtoull : ℕ → List ℕ → ℕ × List ℕ
strtoull base s =
    let (negative, value, rest) = scan_number base s in
    if ltb value (2 ^ 64)
    then ((if negative then (2 ^ 64 - value) % 2 ^ 64 else value), rest)
    else (2 ^ 64 - 1, rest)

-- `strtol`: cut to the range of 64 bits.
pub strtol : ℕ → List ℕ → ℤ × List ℕ
strtol base s =
    let (negative, value, rest) = scan_number base s in
    if negative && not (value == 0)
    then ((if leb value (2 ^ 63) then negsuc (value - 1) else negsuc (2 ^ 63 - 1)), rest)
    else ((if ltb value (2 ^ 63) then pos value else pos (2 ^ 63 - 1)), rest)

-- `(int)`: the low 32 bits, as a signed number.
abbrev pub signed32 : ℕ → ℤ
signed32 m = if ltb m 2147483648 then pos m else negsuc (4294967295 - m)

pub to_int : ℤ → ℤ
to_int (pos n) = signed32 (n % 4294967296)
to_int (negsuc n) = signed32 (4294967295 - n % 4294967296)

-- `parse_hex64`.
unfoldable pub parse_hex64 : List ℕ → Option ℕ
parse_hex64 s =
    if is_empty s then none else if is_empty (strtoull 16 s).1 then some (strtoull 16 s).0 else none
