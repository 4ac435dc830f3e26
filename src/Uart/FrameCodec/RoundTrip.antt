-- ===== src/Uart/FrameCodec/RoundTrip.antt =====
-- A frame that was encoded is decoded to itself.
use bm_sbc.Prelude.{
  ℕ, ◌+◌, ◌-◌, ◌/◌, ◌%◌, ◌^◌, ◌≤◌, ◌<◌, ◌≡◌, ◌⊎◌, refl, ap, ◌∙◌, some, List, [], ◌∷◌, ◌++◌, length,
  length-append, get_or, get_or-append, take, drop, take-append, set-append, NoZero, arith,
}
use bm_sbc.Uart.Cobs.{Outcome, ok, failed, ◌>>=◌, encode_max, encode}
use bm_sbc.Uart.Cobs.Spec.{encoding}
use bm_sbc.Uart.Cobs.Encode.{encode-encoding}
use bm_sbc.Uart.Cobs.RoundTrip.{decode-encoding, length-encoding, encoding-NoZero}
use bm_sbc.Uart.Crc32c.{crc32c}
use bm_sbc.Uart.Crc32c.Reference.{crc32c-lt}
use bm_sbc.Uart.FrameCodec.{
  overhead, max_l2_size, crc_input, crc_bytes, payload, delimit, frame_encode, length_field,
  word_at, open_block, frame_decode,
}
use bm_sbc.Uart.FrameCodec.BigEndian.{two_bytes, four_bytes}

pub length-payload : (l2 : List ℕ) → length (payload l2) ≡ 2 + length l2 + 4
unfolding payload
length-payload l2 = omega (arith, length-append (crc_input l2) (crc_bytes (crc32c (crc_input l2))))

-- The fields of a payload, as the decoder reads them.
length_field-payload :
    (l2 : List ℕ) → length l2 ≤ max_l2_size → length_field (payload l2) ≡ length l2
unfolding payload length_field
length_field-payload l2 h =
    omega (arith, two_bytes (length l2 / 256 % 256) (length l2 % 256) (omega arith))

word_at-crc_bytes :
    (xs : List ℕ) (crc : ℕ) → crc < 2 ^ 32 → word_at (xs ++ crc_bytes crc) (length xs) ≡ crc
unfolding word_at
word_at-crc_bytes xs crc h =
    rw
      (
        get_or-append xs (crc_bytes crc) (length xs) 0 0 (omega arith),
        get_or-append xs (crc_bytes crc) (length xs + 1) 1 0 (omega arith),
        get_or-append xs (crc_bytes crc) (length xs + 2) 2 0 (omega arith),
        get_or-append xs (crc_bytes crc) (length xs + 3) 3 0 (omega arith),
      )
      (four_bytes (crc / 2 ^ 24 % 256) (crc / 2 ^ 16 % 256) (crc / 2 ^ 8 % 256) (crc % 256)
          (omega arith) (omega arith) (omega arith)
        ∙ omega arith)

word_at-payload : (l2 : List ℕ) → word_at (payload l2) (2 + length l2) ≡ crc32c (crc_input l2)
unfolding payload
word_at-payload l2 =
    ap (word_at _) (omega arith)
    ∙ word_at-crc_bytes (crc_input l2) (crc32c (crc_input l2)) (crc32c-lt _)

take-payload : (l2 : List ℕ) → take (2 + length l2) (payload l2) ≡ crc_input l2
unfolding payload
take-payload l2 = take-append (2 + length l2) (crc_input l2) _ (omega arith)

drop-payload : (l2 : List ℕ) → take (length l2) (drop 2 (payload l2)) ≡ l2
unfolding payload
drop-payload l2 = take-append (length l2) l2 _ refl

pub open_block-payload :
    (l2_len : ℕ) (l2 : List ℕ)
    → 0 < length l2
    → length l2 ≤ max_l2_size
    → length l2 ≤ l2_len
    → open_block l2_len (payload l2) ≡ some l2
unfolding open_block
open_block-payload l2_len l2 pos small fits =
    rw
      (
        length_field-payload l2 small,
        length-payload l2,
        take-payload l2,
        word_at-payload l2,
        drop-payload l2,
      )
      (ground arith)

-- The wire form of a frame, without its delimiter, decodes to the frame.
pub frame_decode-encoding :
    (l2_len : ℕ) (l2 : List ℕ)
    → 0 < length l2
    → length l2 ≤ max_l2_size
    → length l2 ≤ l2_len
    → frame_decode (some l2_len) (some (encoding (payload l2))) ≡ some l2
unfolding frame_decode
frame_decode-encoding l2_len l2 pos small fits =
    rw (decode-encoding (2 + max_l2_size + 4) (payload l2) (omega (arith, length-payload l2)))
      (ground (arith, length-encoding (payload l2), open_block-payload l2_len l2 pos small fits))

-- A frame of no bytes or of too many is refused.
pub frame_encode-failed :
    (wire : List ℕ) (wire_len : ℕ) (l2 : List ℕ)
    → (length l2 ≡ 0) ⊎ (max_l2_size < length l2)
    → frame_encode (some wire) wire_len (some l2) ≡ failed
unfolding frame_encode
frame_encode-failed wire wire_len l2 h = ground arith

-- What `frame_encode` leaves in the array: the stuffed payload and the delimiter, then the rest.
abbrev pub Framed : ℕ → List ℕ → Outcome (List ℕ × ℕ) → Type 0
Framed total l2 r =
    (tail : List ℕ) × (r
      ≡ ok (encoding (payload l2) ++ 0 ∷ tail, length (encoding (payload l2)) + 1))
    × (length (encoding (payload l2)) + 1 + length tail ≡ total)

delimit_lem :
    (block tail : List ℕ)
    → 0 < length block
    → 0 < length tail
    → (rest : List ℕ) × (delimit (block ++ tail, length block)
        ≡ ok (block ++ 0 ∷ rest, length block + 1))
      × (length rest + 1 ≡ length tail)
delimit_lem block [] pos room = elim room [ ]
delimit_lem block (y ∷ tail) pos room = (
  tail,
  ground (arith, length-append block (y ∷ tail), set-append block y tail (length block) 0 refl),
  omega arith,
)

module _ (wire : List ℕ) (wire_len : ℕ) (l2 : List ℕ) (pos : 0 < length l2)
    (small : length l2 ≤ max_l2_size) (room : encode_max (length (payload l2)) + 1 ≤ wire_len)
    (inside : wire_len ≤ length wire) where
  frame_encode_steps :
      frame_encode (some wire) wire_len (some l2)
      ≡ (encode (some wire) (wire_len - 1) (some (payload l2)) >>= delimit)
  unfolding frame_encode
  frame_encode_steps = ground arith

  -- With room for the worst case, `frame_encode` writes the stuffed payload and a zero byte.
  pub frame_encode-Framed : Framed (length wire) l2 (frame_encode (some wire) wire_len (some l2))
  frame_encode-Framed =
      let (tail, wrote, size) =
        encode-encoding wire (wire_len - 1) (payload l2) (omega arith) (omega arith) in
      let (rest, ended, count) =
        delimit_lem (encoding (payload l2)) tail (omega (arith, length-encoding (payload l2)))
          (omega (arith, length-encoding (payload l2))) in
      (rest, frame_encode_steps ∙ ap (λ r. r >>= delimit) wrote ∙ ended, omega arith)

-- A frame of 1 to 1522 bytes, encoded into an array with room for the worst case, comes back when
-- the bytes before the delimiter are decoded into room for the frame. They hold no zero byte, the
-- delimiter is one, and no write was outside the array.
pub frame_decode-frame_encode :
    (wire : List ℕ) (wire_len l2_len : ℕ) (l2 : List ℕ)
    → 0 < length l2
    → length l2 ≤ max_l2_size
    → encode_max (length l2 + overhead) + 1 ≤ wire_len
    → wire_len ≤ length wire
    → length l2 ≤ l2_len
    → (out : List ℕ) × (n : ℕ) × (frame_encode (some wire) wire_len (some l2) ≡ ok (out, n + 1))
      × (n + 1 ≤ wire_len)
      × NoZero (take n out)
      × (get_or out n 1 ≡ 0)
      × (frame_decode (some l2_len) (some (take n out)) ≡ some l2)
frame_decode-frame_encode wire wire_len l2_len l2 pos small room inside fits =
    let block = encoding (payload l2) in
    let enough : encode_max (length (payload l2)) + 1 ≤ wire_len =
      omega (arith, length-payload l2) in
    let (tail, wrote, size) = frame_encode-Framed wire wire_len l2 pos small enough inside in
    let front : take (length block) (block ++ 0 ∷ tail) ≡ block =
      take-append (length block) block (0 ∷ tail) refl in
    (
      block ++ 0 ∷ tail,
      length block,
      wrote,
      omega (arith, length-encoding (payload l2)),
      rw front (encoding-NoZero (payload l2)),
      get_or-append block (0 ∷ tail) (length block) 0 1 (omega arith),
      rw front (frame_decode-encoding l2_len l2 pos small fits),
    )
