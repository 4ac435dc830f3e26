-- ===== src/App/Zda/Valid.antt =====
-- The sentence of `utc_callback` passes the test of `parse_nmea_rmc`: apps/gateway/app_main.cpp.
use Prim.Native.Nat.{bit_xor}
use bm_sbc.Prelude.{
  ℕ, ◌<◌, ◌≡◌, refl, sym, ap, ◌∙◌, true, List, [], ◌∷◌, ◌++◌, ==_iff, length, take, drop, IsBytes,
  arith,
}
use bm_sbc.App.Nmea.{nmea_checksum_valid}
use bm_sbc.App.Nmea.Checksum.{xor_all, NoStar, sentence, nmea_checksum_lem, xor_all-byte}
use bm_sbc.App.Zda.{UtcDateTime, zda_fields, zda_checksum, zda_sentence}

checksum-xor_all :
    (body rest : List ℕ) (acc : ℕ)
    → NoStar body
    → zda_checksum acc (body ++ b'*' ∷ rest) ≡ xor_all acc body
unfolding zda_checksum xor_all
checksum-xor_all [] rest acc plain = refl
checksum-xor_all (c ∷ body) rest acc plain =
    ground (arith, checksum-xor_all body rest (bit_xor acc c) plain.1)

-- The types of the fields, and a number of microseconds within a second.
pub record InRange (rtc : UtcDateTime) : Type 0 where
  pub month_in : rtc.month < 256
  pub day_in : rtc.day < 256
  pub hour_in : rtc.hour < 256
  pub min_in : rtc.min < 256
  pub sec_in : rtc.sec < 256
  pub usec_in : rtc.usec < 1000000

abbrev body : UtcDateTime → List ℕ
body rtc = take 32 (drop 1 (zda_fields rtc))

fields_shape :
    (rtc : UtcDateTime) → drop 1 (zda_fields rtc) ≡ body rtc ++ b'*' ∷ b'x' ∷ b'x' ∷ 13 ∷ 10 ∷ []
unfolding zda_fields
fields_shape rtc = refl

body-NoStar : (rtc : UtcDateTime) → InRange rtc → NoStar (body rtc)
unfolding zda_fields
body-NoStar rtc range = omega arith

body-IsBytes : (rtc : UtcDateTime) → IsBytes (body rtc)
unfolding zda_fields
body-IsBytes rtc = omega arith

sentence_shape :
    (rtc : UtcDateTime)
    → zda_sentence rtc ≡ sentence (body rtc) (zda_checksum 0 (drop 1 (zda_fields rtc)))
unfolding zda_sentence zda_fields
sentence_shape rtc = refl

ends :
    (rtc : UtcDateTime) (x : ℕ)
    → (length (sentence (body rtc) x) ≡ 38) × (drop 36 (sentence (body rtc) x) ≡ 13 ∷ 10 ∷ [])
unfolding zda_fields
ends rtc x = (refl, refl)

-- The sentence has 38 characters, the last two the end of the line, and whatever stands behind it in
-- memory, it passes the test that the gateway itself makes of the sentences it receives.
pub zda_sentence_valid :
    (rtc : UtcDateTime) (beyond : List ℕ)
    → InRange rtc
    → (length (zda_sentence rtc) ≡ 38)
      × (drop 36 (zda_sentence rtc) ≡ 13 ∷ 10 ∷ [])
      × (nmea_checksum_valid (zda_sentence rtc ++ beyond) 38 ≡ true)
zda_sentence_valid rtc beyond range =
    let x = zda_checksum 0 (drop 1 (zda_fields rtc)) in
    let right : x ≡ xor_all 0 (body rtc) =
      ap (zda_checksum 0) (fields_shape rtc)
      ∙ checksum-xor_all (body rtc) (b'x' ∷ b'x' ∷ 13 ∷ 10 ∷ []) 0 (body-NoStar rtc range) in
    let byte : x < 256 =
      omega (arith, right, xor_all-byte (body rtc) 0 (omega arith) (body-IsBytes rtc)) in
    (
      ap length (sentence_shape rtc) ∙ (ends rtc x).0,
      ap (drop 36) (sentence_shape rtc) ∙ (ends rtc x).1,
      ap (λ s. nmea_checksum_valid (s ++ beyond) 38) (sentence_shape rtc)
          ∙ (ap (nmea_checksum_valid (sentence (body rtc) x ++ beyond)) (sym (ends rtc x).0)
              ∙ (nmea_checksum_lem (body rtc) beyond x (body-NoStar rtc range) byte
                  ∙ (==_iff x (xor_all 0 (body rtc))).1 right)),
    )
