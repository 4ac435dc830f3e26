-- ===== src/Core/Number/RoundTrip.antt =====
-- The numbers that `parse_hex64` reads, against the digits that the program prints.
use native.Mathlib.Nat.{pow-suc}
use bm_sbc.Prelude.{
  ℕ, zero, suc, ◌+◌, ◌*◌, ◌/◌, ◌%◌, ◌^◌, ◌≤◌, ◌<◌, ◌≡◌, ◌⊎◌, refl, ap, sym, ◌∙◌, true, false, some,
  List, [], ◌∷◌, ◌++◌, append-nil, append_assoc, length, All, All-append, arith,
}
use bm_sbc.Net.VirtualPort.SockPath.{hex_digit, hex_digits, length-hex_digits}
use bm_sbc.Core.Number.{
  digit_value, is_digit, scan_digits, is_space, skip_space, sign, skip_prefix, scan_number,
  strtoull, parse_hex64,
}

digit_value-hex_digit : (d : ℕ) → d < 16 → digit_value (hex_digit d) ≡ d
unfolding digit_value hex_digit
digit_value-hex_digit d h = ground arith

-- The characters of lower-case hexadecimal digits.
abbrev IsHex : ℕ → Type 0
IsHex c = ((48 ≤ c) × (c ≤ 57)) ⊎ ((97 ≤ c) × (c ≤ 102))

hex_digit-IsHex : (d : ℕ) → d < 16 → IsHex (hex_digit d)
unfolding hex_digit
hex_digit-IsHex d h = ground arith

hex_digits-IsHex : (n x : ℕ) → All IsHex (hex_digits n x)
unfolding hex_digits
hex_digits-IsHex zero x = tt
hex_digits-IsHex (suc n) x =
    All-append IsHex (hex_digits n (x / 16)) _ (hex_digits-IsHex n (x / 16))
      (hex_digit-IsHex (x % 16) (omega arith), tt)

last_digit :
    (acc d : ℕ) (ys : List ℕ)
    → d < 16
    → scan_digits 16 acc (hex_digit d ∷ ys) ≡ scan_digits 16 (acc * 16 + d) ys
unfolding scan_digits is_digit
last_digit acc d ys h = rw (digit_value-hex_digit d h) (ground arith)

scan_digits-hex_digits :
    (n x : ℕ) (ys : List ℕ)
    → x < 16 ^ n
    → scan_digits 16 0 (hex_digits n x ++ ys) ≡ scan_digits 16 x ys
unfolding hex_digits
scan_digits-hex_digits zero x ys h = ap (λ k. scan_digits 16 k ys) (omega arith)
scan_digits-hex_digits (suc n) x ys h =
    let d = x % 16 in
    ap (scan_digits 16 0) (append_assoc (hex_digits n (x / 16)) (hex_digit d ∷ []) ys)
    ∙ scan_digits-hex_digits n (x / 16) (hex_digit d ∷ ys) (omega (arith, pow-suc 16 n))
    ∙ last_digit (x / 16) d ys (omega arith)
    ∙ ap (λ k. scan_digits 16 k ys) (omega arith)

is_digit-IsHex : (c : ℕ) → IsHex c → is_digit 16 c ≡ true
unfolding is_digit digit_value
is_digit-IsHex c h = ground arith

-- A string of hexadecimal digits holds no space, no sign and no prefix.
scan_end : (acc : ℕ) → scan_digits 16 acc [] ≡ (acc, [])
unfolding scan_digits
scan_end acc = refl

skip_space-IsHex : (c : ℕ) (cs : List ℕ) → IsHex c → skip_space (c ∷ cs) ≡ c ∷ cs
unfolding skip_space is_space
skip_space-IsHex c cs h = ground arith

sign-IsHex : (c : ℕ) (cs : List ℕ) → IsHex c → sign (c ∷ cs) ≡ (false, c ∷ cs)
sign-IsHex c cs h = ground arith

skip_prefix-IsHex : (c : ℕ) (cs : List ℕ) → All IsHex (c ∷ cs) → skip_prefix 16 (c ∷ cs) ≡ c ∷ cs
unfolding skip_prefix
skip_prefix-IsHex c [] h = ground arith
skip_prefix-IsHex c (d ∷ ds) h = ground arith

scan_number-IsHex :
    (c : ℕ) (cs : List ℕ)
    → All IsHex (c ∷ cs)
    → scan_number 16 (c ∷ cs)
      ≡ (false, (scan_digits 16 0 (c ∷ cs)).0, (scan_digits 16 0 (c ∷ cs)).1)
unfolding scan_number
scan_number-IsHex c cs h =
    rw
      (
        skip_space-IsHex c cs h.0,
        sign-IsHex c cs h.0,
        skip_prefix-IsHex c cs h,
        is_digit-IsHex c h.0,
      )
      refl

skip_prefix_x :
    (c : ℕ) (cs : List ℕ) → All IsHex (c ∷ cs) → skip_prefix 16 (b'0' ∷ b'x' ∷ c ∷ cs) ≡ c ∷ cs
unfolding skip_prefix
skip_prefix_x c cs h = rw (is_digit-IsHex c h.0) refl

scan_number_prefix :
    (c : ℕ) (cs : List ℕ)
    → All IsHex (c ∷ cs)
    → scan_number 16 (b'0' ∷ b'x' ∷ c ∷ cs)
      ≡ (false, (scan_digits 16 0 (c ∷ cs)).0, (scan_digits 16 0 (c ∷ cs)).1)
unfolding scan_number skip_space is_space
scan_number_prefix c cs h = rw (skip_prefix_x c cs h, is_digit-IsHex c h.0) refl

module _ (cs : List ℕ) (v : ℕ) (h : All IsHex cs) (e : scan_digits 16 0 cs ≡ (v, []))
    (lt : v < 2 ^ 64) where
  parse_hex64-IsHex :
      (0 < length cs) → (parse_hex64 cs ≡ some v) × (parse_hex64 (b'0' ∷ b'x' ∷ cs) ≡ some v)
  unfolding parse_hex64 strtoull
  parse_hex64-IsHex l = go cs h e l
    where
      go :
          (cs : List ℕ)
          → All IsHex cs
          → scan_digits 16 0 cs ≡ (v, [])
          → 0 < length cs
          → (parse_hex64 cs ≡ some v) × (parse_hex64 (b'0' ∷ b'x' ∷ cs) ≡ some v)
      go [] h e l = absurd (omega arith)
      go (c ∷ cs) h e l = (
        rw (scan_number-IsHex c cs h, e) (ground arith),
        rw (scan_number_prefix c cs h, e) (ground arith),
      )

-- The program reads back every identity that it prints: the 16 hexadecimal digits of a 64-bit
-- number, with or without the prefix "0x", are read as that number.
pub parse_hex64-hex_digits :
    (x : ℕ)
    → x < 2 ^ 64
    → (parse_hex64 (hex_digits 16 x) ≡ some x)
      × (parse_hex64 (b'0' ∷ b'x' ∷ hex_digits 16 x) ≡ some x)
parse_hex64-hex_digits x h =
    let whole =
      ap (scan_digits 16 0) (sym (append-nil (hex_digits 16 x)))
      ∙ scan_digits-hex_digits 16 x [] h
      ∙ scan_end x in
    parse_hex64-IsHex (hex_digits 16 x) x (hex_digits-IsHex 16 x) whole h
      (omega (arith, length-hex_digits 16 x))
