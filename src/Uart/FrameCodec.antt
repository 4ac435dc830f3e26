-- ===== src/Uart/FrameCodec.antt =====
-- src/transports/uart_l2/frame_codec.c and frame_codec.h: a frame with its length and checksum,
-- stuffed and ended by a zero byte.
pub mod BigEndian
pub mod RoundTrip
pub mod Soundness
use Prim.Native.Nat.{bit_or}
use bm_sbc.Prelude.{
  ℕ, ◌+◌, ◌-◌, ◌*◌, ◌/◌, ◌%◌, ◌^◌, Option, none, some, List, [], ◌∷◌, ◌++◌, ltb, ◌==◌, ◌||◌, not,
  if◌then◌else◌, length, get_or, take, drop,
}
use bm_sbc.Uart.Cobs.{Outcome, ok, failed, ◌>>=◌, write, encode_max, encode, decode}
use bm_sbc.Uart.Crc32c.{crc32c}

-- FRAME_CODEC_OVERHEAD, FRAME_CODEC_MAX_L2_SIZE, FRAME_CODEC_MAX_WIRE_SIZE.
abbrev pub overhead : ℕ
overhead = 6

abbrev pub max_l2_size : ℕ
max_l2_size = 1522

abbrev pub max_wire_size : ℕ
max_wire_size = encode_max (max_l2_size + overhead) + 1

-- The two length bytes and the frame, which the checksum covers.
abbrev pub crc_input : List ℕ → List ℕ
crc_input l2 = (length l2 / 256 % 256) ∷ (length l2 % 256) ∷ l2

-- The four bytes of a checksum, the highest first.
abbrev pub crc_bytes : ℕ → List ℕ
crc_bytes crc = (crc / 2 ^ 24 % 256) ∷ (crc / 2 ^ 16 % 256) ∷ (crc / 2 ^ 8 % 256) ∷ (crc % 256) ∷ []

-- The array `payload` of `frame_encode`.
unfoldable pub payload : List ℕ → List ℕ
payload l2 = crc_input l2 ++ crc_bytes (crc32c (crc_input l2))

-- `wire[encoded_len] = 0x00; return encoded_len + 1;`
abbrev pub delimit : List ℕ × ℕ → Outcome (List ℕ × ℕ)
delimit (wire, encoded_len) =
    if encoded_len == 0
    then failed
    else (write wire encoded_len 0 >>= λ wire'. ok (wire', encoded_len + 1))

-- `frame_encode`: the array `wire` afterwards and the returned length; `failed` is `return 0`.
-- A pointer with its length is a list, and a null pointer is `none`.
pub frame_encode : Option (List ℕ) → ℕ → Option (List ℕ) → Outcome (List ℕ × ℕ)
frame_encode none wire_len l2_frame = failed
frame_encode (some wire) wire_len none = failed
frame_encode (some wire) wire_len (some l2) =
    if length l2 == 0 || ltb max_l2_size (length l2)
    then failed
    else if ltb wire_len (encode_max (length (payload l2)) + 1)
    then failed
    else (encode (some wire) (wire_len - 1) (some (payload l2)) >>= delimit)

-- `((uint16_t)decoded[0] << 8) | decoded[1]`.
pub length_field : List ℕ → ℕ
length_field decoded = bit_or (get_or decoded 0 0 * 2 ^ 8) (get_or decoded 1 0)

-- The big-endian word at index `i`.
pub word_at : List ℕ → ℕ → ℕ
word_at decoded i =
    bit_or
      (bit_or (bit_or (get_or decoded i 0 * 2 ^ 24) (get_or decoded (i + 1) 0 * 2 ^ 16))
        (get_or decoded (i + 2) 0 * 2 ^ 8))
      (get_or decoded (i + 3) 0)

-- The tests on the decoded block, and the frame in it; `none` is `return 0`.
pub open_block : ℕ → List ℕ → Option (List ℕ)
open_block l2_len decoded =
    let frame_len = length_field decoded in
    if ltb (length decoded) overhead
    then none
    else if frame_len == 0 || ltb max_l2_size frame_len
    then none
    else if not (length decoded == 2 + frame_len + 4)
    then none
    else if not (crc32c (take (2 + frame_len) decoded) == word_at decoded (2 + frame_len))
    then none
    else if ltb l2_len frame_len
    then none
    else some (take frame_len (drop 2 decoded))

-- `frame_decode`: the frame of the returned length, or nothing on an error. The array `decoded`
-- holds 2 + FRAME_CODEC_MAX_L2_SIZE + 4 bytes.
pub frame_decode : Option ℕ → Option (List ℕ) → Option (List ℕ)
frame_decode none wire = none
frame_decode (some l2_len) none = none
frame_decode (some l2_len) (some wire) =
    if length wire == 0
    then none
    else open_block l2_len (decode (some (2 + max_l2_size + 4)) (some wire))
