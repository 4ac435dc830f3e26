-- ===== src/App/Zda.antt =====
-- apps/gateway/app_main.cpp: the sentence with the time that `utc_callback` makes up.
pub mod Valid
use Prim.Native.Nat.{bit_xor}
use bm_sbc.Prelude.{ℕ, ◌+◌, ◌-◌, ◌/◌, ◌%◌, List, [], ◌∷◌, leb, ◌==◌, if◌then◌else◌, set, drop}

-- UtcDateTime of the stack: what the sentence uses.
pub record UtcDateTime : Type 0 where
  pub year : ℕ
  pub month : ℕ
  pub day : ℕ
  pub hour : ℕ
  pub min : ℕ
  pub sec : ℕ
  pub usec : ℕ

-- `hex_byte`.
unfoldable pub hex_byte : ℕ → ℕ
hex_byte c = if leb 10 c then b'A' + (c - 10) else b'0' + c

abbrev pub template : List ℕ
template =
    b'$' ∷ b'G' ∷ b'P' ∷ b'Z' ∷ b'D' ∷ b'A' ∷ b',' ∷ b'h' ∷ b'h' ∷ b'm' ∷ b'm' ∷ b's' ∷ b's' ∷ b'.'
    ∷ b'f' ∷ b'f' ∷ b',' ∷ b'd' ∷ b'd' ∷ b',' ∷ b'm' ∷ b'm' ∷ b',' ∷ b'y' ∷ b'y' ∷ b'y' ∷ b'y'
    ∷ b',' ∷ b'0' ∷ b'0' ∷ b',' ∷ b'0' ∷ b'0' ∷ b'*' ∷ b'x' ∷ b'x' ∷ 13 ∷ 10 ∷ []

-- A number stored as a character.
abbrev digit : ℕ → ℕ
digit n = (n + b'0') % 256

abbrev put_two : ℕ → ℕ → List ℕ → List ℕ
put_two i n line = set (set line i (digit (n / 10))) (i + 1) (digit (n % 10))

-- The fields, at their places.
pub zda_fields : UtcDateTime → List ℕ
zda_fields rtc =
    let line = put_two 7 rtc.hour template in
    let line = put_two 9 rtc.min line in
    let line = put_two 11 rtc.sec line in
    let line = put_two 14 (rtc.usec / 10000) line in
    let line = put_two 17 rtc.day line in
    let line = put_two 20 rtc.month line in
    let line = set line 23 (digit (rtc.year / 1000 % 10)) in
    let line = set line 24 (digit (rtc.year / 100 % 10)) in
    let line = set line 25 (digit (rtc.year / 10 % 10)) in set line 26 (digit (rtc.year % 10))

-- The loop over the characters up to '*'.
pub zda_checksum : ℕ → List ℕ → ℕ
zda_checksum cksum [] = cksum
zda_checksum cksum (c ∷ cs) =
    let rest = zda_checksum (bit_xor cksum c) cs in if c == b'*' then cksum else rest

-- The sentence that is sent.
pub zda_sentence : UtcDateTime → List ℕ
unfolding zda_fields zda_checksum hex_byte
zda_sentence rtc =
    let cksum = zda_checksum 0 (drop 1 (zda_fields rtc)) in
    set (set (zda_fields rtc) 34 (hex_byte (cksum / 16))) 35 (hex_byte (cksum % 16))
