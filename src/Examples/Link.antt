-- ===== src/Examples/Link.antt =====
-- The serial link: uart/ of src/transports.
use Prim.Native.Nat.{bit_xor}
use bm_sbc.Prelude.{
  ℕ, ◌+◌, ◌≤◌, ◌<◌, ◌≡◌, ◌≢◌, refl, ap, ◌∙◌, true, some, List, [], ◌∷◌, ◌++◌, append-nil, length,
  length-append, get_or, take, drop, take-append-drop, replicate, NoZero, IsBytes, arith,
}
use bm_sbc.Uart.Cobs.{encode, decode, ok}
use bm_sbc.Uart.Cobs.Spec.{encoding}
use bm_sbc.Uart.Cobs.Encode.{Wrote, encode-encoding}
use bm_sbc.Uart.Cobs.RoundTrip.{encoding-IsBytes, decode-encode, length-encoding}
use bm_sbc.Uart.Crc32c.{crc32c}
use bm_sbc.Uart.Crc32c.Reference.{reference_update, crc32c-reference}
use bm_sbc.Uart.Crc32c.Detection.{crc32c_detects_one_byte}
use bm_sbc.Uart.FrameCodec.{max_l2_size, payload, frame_encode, frame_decode}
use bm_sbc.Uart.FrameCodec.RoundTrip.{
  length-payload, frame_decode-frame_encode, frame_decode-encoding,
}
use bm_sbc.Uart.FrameCodec.Soundness.{frame_decode_sound}
use bm_sbc.Uart.Transport.{
  Port, WriteEvent, wrote, interrupted, ReadEvent, got, nothing, try_again, read_error, Rx,
  rx_start, rx_bytes, rx_thread, success, uart_l2_send,
}
use bm_sbc.Uart.Transport.Receive.{IsSound, rx_thread-IsSound}
use bm_sbc.Uart.Transport.Stream.{wire_stream, rx_thread_resync}
use bm_sbc.Uart.Transport.Send.{uart_l2_send_lem, send_all, link_delivers}

-- Bytes with a zero among them.
abbrev pub frame : List ℕ
frame = 72 ∷ 0 ∷ 105 ∷ []

abbrev pub open_port : Port
open_port = record { fd = some 3; rx_running = true; rx_cb = true }

abbrev pub writes : List WriteEvent
writes = wrote 2 ∷ interrupted ∷ wrote 100 ∷ []

pub sent : (uart_l2_send open_port (some frame) writes).1 ≡ success
sent = (uart_l2_send_lem open_port 3 frame writes refl (omega arith, omega arith)).1 (
    omega (
      arith,
      length-append (encoding (payload frame)) (0 ∷ []),
      length-encoding (payload frame),
      length-payload frame,
    ))

abbrev line : List ℕ
line = send_all open_port ((frame, writes) ∷ [])

abbrev reads : List ReadEvent
reads = got (take 3 line) ∷ try_again ∷ got (drop 3 line) ∷ []

link_delivers_example :
    rx_thread true reads rx_start
    ≡ record { accum = []; decode_error_count = 0; delivered = frame ∷ [] }
link_delivers_example =
    link_delivers open_port 3 ((frame, writes) ∷ []) reads refl
      (((omega arith, omega arith), sent), tt)
      (ap (λ bs. take 3 line ++ bs) (append-nil (drop 3 line)) ∙ take-append-drop 3 line)

frame_decode-frame_encode_example :
    (out : List ℕ) × (n : ℕ) × (frame_encode (some (replicate 20 7)) 20 (some frame)
      ≡ ok (out, n + 1))
    × (n + 1 ≤ 20)
    × NoZero (take n out)
    × (get_or out n 1 ≡ 0)
    × (frame_decode (some 10) (some (take n out)) ≡ some frame)
frame_decode-frame_encode_example =
    frame_decode-frame_encode (replicate 20 7) 20 10 frame (omega arith) (omega arith) (omega arith)
      (omega arith) (omega arith)

decode-encode_example :
    (out : List ℕ) × (n : ℕ) × (encode (some (replicate 9 7)) 9 (some frame) ≡ ok (out, n))
    × (length out ≡ 9)
    × (decode (some 5) (some (take n out)) ≡ frame)
decode-encode_example =
    decode-encode (replicate 9 7) 9 5 frame (omega arith) (omega arith) (omega arith)

encode-encoding_example : Wrote 9 (encoding frame) (encode (some (replicate 9 7)) 9 (some frame))
encode-encoding_example = encode-encoding (replicate 9 7) 9 frame (omega arith) (omega arith)

crc32c-reference_example : crc32c frame ≡ bit_xor (reference_update 0xFFFFFFFF frame) 0xFFFFFFFF
crc32c-reference_example = crc32c-reference frame (omega arith, (omega arith, (omega arith, tt)))

crc32c_detects_one_byte_example : crc32c (72 ∷ 0 ∷ 105 ∷ []) ≢ crc32c (72 ∷ 1 ∷ 105 ∷ [])
crc32c_detects_one_byte_example =
    crc32c_detects_one_byte (72 ∷ []) 0 1 (105 ∷ []) (omega arith, (omega arith, (omega arith, tt)))
      (omega arith) (ground arith)

payload-IsBytes : IsBytes (payload frame)
unfolding payload
payload-IsBytes = (
  omega arith,
  (
    omega arith,
    (
      omega arith,
      (omega arith, (omega arith, (omega arith, (omega arith, (omega arith, (omega arith, tt)))))),
    ),
  ),
)

frame_decode_sound_example :
    (decode (some (2 + max_l2_size + 4)) (some (encoding (payload frame))) ≡ payload frame)
    × (0 < length frame)
    × (length frame ≤ max_l2_size)
    × (length frame ≤ 10)
frame_decode_sound_example =
    frame_decode_sound 10 (encoding (payload frame)) frame
      (encoding-IsBytes (payload frame) payload-IsBytes)
      (frame_decode-encoding 10 frame (omega arith) (omega arith) (omega arith))

-- A receiver in the middle of a frame.
abbrev midway : Rx
midway = record rx_start { accum = 5 ∷ 6 ∷ [] }

abbrev noisy : List ReadEvent
noisy = got (9 ∷ 9 ∷ 0 ∷ []) ∷ nothing ∷ got (wire_stream (frame ∷ [])) ∷ []

rx_thread_resync_example :
    let after = rx_bytes true ((9 ∷ 9 ∷ []) ++ 0 ∷ []) midway in
    rx_thread true noisy midway
    ≡ record after { accum = []; delivered = after.delivered ++ frame ∷ [] }
rx_thread_resync_example =
    rx_thread_resync (9 ∷ 9 ∷ []) (frame ∷ []) noisy midway ((omega arith, omega arith), tt)
      (ap (λ bs. 9 ∷ 9 ∷ 0 ∷ bs) (append-nil (wire_stream (frame ∷ []))))

rx_thread-IsSound_example : IsSound (rx_thread true (got (9 ∷ 0 ∷ []) ∷ read_error ∷ []) rx_start)
rx_thread-IsSound_example =
    rx_thread-IsSound true (got (9 ∷ 0 ∷ []) ∷ read_error ∷ []) rx_start
      ((omega arith, (omega arith, tt)), (tt, tt))
      (record { bounded = omega arith; plain = tt; bytes = tt; frames = tt })
