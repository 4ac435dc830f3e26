-- ===== src/App/Nmea/Checksum.antt =====
-- What the checksum test of apps/gateway/app_main.cpp accepts.
use Prim.Native.Nat.{bit_xor}
use bm_sbc.Prelude.{
  ℕ, zero, suc, ◌-◌, ◌/◌, ◌%◌, ◌<◌, ◌≡◌, ◌≢◌, refl, sym, ap, ◌∙◌, Bool, true, false, List, [], ◌∷◌,
  ◌++◌, append_assoc, ◌==◌, ==_iff, ◌&&◌, length, length-append, drop, c_string, All, IsBytes,
  arith,
}
use bm_sbc.Uart.Crc32c.Xor.{xor_comm, xor_assoc, xor_self, xor-zero_left, xor-lt}
use bm_sbc.Core.Number.{
  strtoull, scan_number, scan_digits, is_digit, digit_value, skip_space, skip_prefix, is_space,
}
use bm_sbc.App.Zda.{hex_byte}
use bm_sbc.App.Nmea.{checksum_loop, nmea_checksum_valid}

unfoldable pub xor_all : ℕ → List ℕ → ℕ
xor_all acc [] = acc
xor_all acc (c ∷ cs) = xor_all (bit_xor acc c) cs

abbrev pub NoStar : List ℕ → Type 0
NoStar cs = All (λ c. c ≢ b'*') cs

loop_to_star :
    (body rest : List ℕ) (left acc : ℕ)
    → NoStar body
    → length body < left
    → checksum_loop left acc (body ++ b'*' ∷ rest) ≡ (xor_all acc body, b'*' ∷ rest)
unfolding checksum_loop xor_all
loop_to_star body rest zero acc none lt = elim lt [ ]
loop_to_star [] rest (suc left) acc none lt = refl
loop_to_star (c ∷ body) rest (suc left) acc none lt =
    ground (arith, loop_to_star body rest left (bit_xor acc c), none.0)

abbrev line_end : List ℕ → List ℕ
line_end beyond = 13 ∷ 10 ∷ beyond

abbrev two_hex : ℕ → List ℕ
two_hex x = hex_byte (x / 16) ∷ hex_byte (x % 16) ∷ []

pub all_below : ℕ → (ℕ → Bool) → Bool
all_below zero p = true
all_below (suc n) p = p n && all_below n p

pub all_below_sound : (n : ℕ) (p : ℕ → Bool) (x : ℕ) → all_below n p ≡ true → x < n → p x ≡ true
unfolding all_below
all_below_sound zero p x h lt = elim lt [ ]
all_below_sound (suc n) p x h lt = ground (arith, all_below_sound n p x)

hex_table :
    (beyond : List ℕ)
    → all_below 256 (λ x. (strtoull 16 (c_string (two_hex x ++ line_end beyond))).0 == x) ≡ true
unfolding all_below hex_byte strtoull scan_number scan_digits is_digit digit_value skip_space
    skip_prefix is_space
hex_table beyond = refl

read_hex :
    (beyond : List ℕ) (x : ℕ)
    → x < 256
    → (strtoull 16 (c_string (two_hex x ++ line_end beyond))).0 ≡ x
read_hex beyond x lt = (==_iff _ x).0 (all_below_sound 256 _ x (hex_table beyond) lt)

-- "$", the body, "*", two digits, and the end of the line.
abbrev pub sentence : List ℕ → ℕ → List ℕ
sentence body x = b'$' ∷ (body ++ b'*' ∷ (two_hex x ++ line_end []))

-- A sentence with a body without stars and with two hexadecimal digits behind its star, whatever
-- stands behind it in memory, passes the test exactly if the digits are the exclusive or of the
-- characters of the body.
pub nmea_checksum_lem :
    (body beyond : List ℕ) (x : ℕ)
    → NoStar body
    → x < 256
    → nmea_checksum_valid (sentence body x ++ beyond) (length (sentence body x))
      ≡ (x == xor_all 0 body)
unfolding nmea_checksum_valid
nmea_checksum_lem body beyond x plain byte =
    let rest : List ℕ = two_hex x ++ line_end beyond in
    let size = length-append body (b'*' ∷ (two_hex x ++ line_end [])) in
    let found : checksum_loop (length (sentence body x) - 1) 0 (drop 1 (sentence body x ++ beyond))
        ≡ (xor_all 0 body, b'*' ∷ rest) =
      ap (checksum_loop (length (sentence body x) - 1) 0)
        (append_assoc body (b'*' ∷ (two_hex x ++ line_end [])) beyond)
      ∙ loop_to_star body rest (length (sentence body x) - 1) 0 plain (omega (arith, size)) in
    ap (λ r. (strtoull 16 (c_string (drop 1 r.1))).0 % 256 == r.0) found
    ∙ ap (λ n. n == xor_all 0 body) (ap (λ n. n % 256) (read_hex beyond x byte) ∙ omega arith)

xor_cancel : (a c d : ℕ) → bit_xor a c ≡ bit_xor a d → c ≡ d
xor_cancel a c d e = sym (undone c) ∙ (ap (bit_xor a) e ∙ undone d)
  where
    undone : (b : ℕ) → bit_xor a (bit_xor a b) ≡ b
    undone b = sym (xor_assoc a a b) ∙ (ap (λ z. bit_xor z b) (xor_self a) ∙ xor-zero_left b)

xor_all-inj : (cs : List ℕ) (a b : ℕ) → xor_all a cs ≡ xor_all b cs → a ≡ b
unfolding xor_all
xor_all-inj [] a b e = e
xor_all-inj (c ∷ cs) a b e =
    xor_cancel c a b (xor_comm c a ∙ (xor_all-inj cs (bit_xor a c) (bit_xor b c) e ∙ xor_comm b c))

xor_all-append :
    (front back : List ℕ) (acc : ℕ) → xor_all acc (front ++ back) ≡ xor_all (xor_all acc front) back
unfolding xor_all
xor_all-append [] back acc = refl
xor_all-append (c ∷ front) back acc = xor_all-append front back (bit_xor acc c)

pub xor_all-byte : (cs : List ℕ) (acc : ℕ) → acc < 256 → IsBytes cs → xor_all acc cs < 256
unfolding xor_all
xor_all-byte [] acc lt bytes = lt
xor_all-byte (c ∷ cs) acc lt bytes =
    xor_all-byte cs (bit_xor acc c) (xor-lt 8 acc c lt bytes.0) bytes.1

-- Different characters at one place of a body give different checksums.
xor_all-differs :
    (front back : List ℕ) (c d : ℕ)
    → c ≢ d
    → xor_all 0 (front ++ c ∷ back) ≢ xor_all 0 (front ++ d ∷ back)
unfolding xor_all
xor_all-differs front back c d ne e = ne (
    xor_cancel (xor_all 0 front) c d (
      xor_all-inj back _ _
        (sym (xor_all-append front (c ∷ back) 0) ∙ (e ∙ xor_all-append front (d ∷ back) 0))))

-- A sentence that passes the test no longer does when one character of its body is altered, wherever
-- it stands and whatever it becomes, short of a star.
pub altered_rejected :
    (front back beyond : List ℕ) (c d x : ℕ)
    → NoStar (front ++ c ∷ back)
    → NoStar (front ++ d ∷ back)
    → x < 256
    → c ≢ d
    → nmea_checksum_valid
        (sentence (front ++ c ∷ back) x ++ beyond)
        (length (sentence (front ++ c ∷ back) x))
      ≡ true
    → nmea_checksum_valid
        (sentence (front ++ d ∷ back) x ++ beyond)
        (length (sentence (front ++ d ∷ back) x))
      ≡ false
altered_rejected front back beyond c d x plain altered byte ne passes =
    nmea_checksum_lem (front ++ d ∷ back) beyond x altered byte
    ∙ ground (
      arith,
      nmea_checksum_lem (front ++ c ∷ back) beyond x plain byte,
      xor_all-differs front back c d ne,
    )
