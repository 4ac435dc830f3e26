-- ===== src/Uart/Transport/Stream.antt =====
-- A stream of encoded frames, cut up by the reads in any way, is delivered frame by frame.
use bm_sbc.Prelude.{
  ℕ, ◌+◌, ◌≤◌, ◌≡◌, refl, ap, sym, ◌∙◌, Bool, true, List, [], ◌∷◌, ◌++◌, length, length-append, All,
  NoZero, append-nil, append-snoc, arith,
}
use bm_sbc.Uart.Cobs.Spec.{encoding}
use bm_sbc.Uart.Cobs.RoundTrip.{length-encoding, encoding-NoZero}
use bm_sbc.Uart.FrameCodec.{max_l2_size, max_wire_size, payload}
use bm_sbc.Uart.FrameCodec.RoundTrip.{length-payload, frame_decode-encoding}
use bm_sbc.Uart.Transport.{
  Rx, end_frame, rx_byte, rx_bytes, rx_thread, ReadEvent, got, nothing, try_again, read_error, stop,
}
use bm_sbc.Uart.Transport.Receive.{IsFrame}

-- What goes over the line for a frame, and for frames one after the other.
abbrev pub wire_form : List ℕ → List ℕ
wire_form l2 = encoding (payload l2) ++ 0 ∷ []

abbrev pub wire_stream : List (List ℕ) → List ℕ
wire_stream [] = []
wire_stream (l2 ∷ frames) = wire_form l2 ++ wire_stream frames

pub rx_bytes-append :
    (rx_cb : Bool) (xs ys : List ℕ) (s : Rx)
    → rx_bytes rx_cb (xs ++ ys) s ≡ rx_bytes rx_cb ys (rx_bytes rx_cb xs s)
unfolding rx_bytes
rx_bytes-append rx_cb [] ys s = refl
rx_bytes-append rx_cb (x ∷ xs) ys s = rx_bytes-append rx_cb xs ys (rx_byte rx_cb x s)

-- Bytes that are not zero only fill the buffer, while there is room.
rx_bytes-NoZero :
    (rx_cb : Bool) (xs : List ℕ) (s : Rx)
    → NoZero xs
    → length s.accum + length xs ≤ max_wire_size
    → rx_bytes rx_cb xs s ≡ record s { accum = s.accum ++ xs }
unfolding rx_bytes rx_byte
rx_bytes-NoZero rx_cb [] s h room = ground (arith, append-nil s.accum)
rx_bytes-NoZero rx_cb (x ∷ xs) s h room =
    ap (rx_bytes rx_cb xs) (ground arith)
    ∙ rx_bytes-NoZero rx_cb xs (record s { accum = s.accum ++ x ∷ [] }) h.1
        (omega (arith, length-append s.accum (x ∷ [])))
    ∙ ap (λ t. record s { accum = t }) (append-snoc s.accum xs x)

-- One encoded frame, from an empty buffer.
frame-delivered :
    (l2 : List ℕ) (s : Rx)
    → IsFrame l2
    → s.accum ≡ []
    → rx_bytes true (wire_form l2) s ≡ record s { accum = []; delivered = s.delivered ++ l2 ∷ [] }
unfolding rx_bytes rx_byte end_frame
frame-delivered l2 s v e =
    rx_bytes-append true (encoding (payload l2)) (0 ∷ []) s
    ∙ ap (rx_bytes true (0 ∷ [])) (
        rx_bytes-NoZero true (encoding (payload l2)) s (encoding-NoZero (payload l2))
          (omega (arith, ap length e, length-encoding (payload l2), length-payload l2))
        ∙ ap (λ t. record s { accum = t ++ encoding (payload l2) }) e)
    ∙ ground (arith, length-encoding (payload l2), frame_decode-encoding max_l2_size l2 v.0 v.1 v.1)

pub stream-delivered :
    (frames : List (List ℕ)) (s : Rx)
    → All IsFrame frames
    → s.accum ≡ []
    → rx_bytes true (wire_stream frames) s
      ≡ record s { accum = []; delivered = s.delivered ++ frames }
stream-delivered [] s v e = unfold rx_bytes in ground (arith, append-nil s.delivered)
stream-delivered (l2 ∷ frames) s v e =
    rx_bytes-append true (wire_form l2) (wire_stream frames) s
    ∙ ap (rx_bytes true (wire_stream frames)) (frame-delivered l2 s v.0 e)
    ∙ stream-delivered frames (record s { accum = []; delivered = s.delivered ++ l2 ∷ [] }) v.1 refl
    ∙ ap (λ d. record s { accum = []; delivered = d }) (append-snoc s.delivered frames l2)

-- The bytes that the thread has read before it ends or waits.
abbrev pub incoming : List ReadEvent → List ℕ
incoming [] = []
incoming (got bs ∷ events) = bs ++ incoming events
incoming (nothing ∷ events) = incoming events
incoming (try_again ∷ events) = incoming events
incoming (read_error ∷ events) = []
incoming (stop ∷ events) = []

-- How the reads cut up the stream makes no difference.
pub rx_thread-rx_bytes :
    (rx_cb : Bool) (events : List ReadEvent) (s : Rx)
    → rx_thread rx_cb events s ≡ rx_bytes rx_cb (incoming events) s
unfolding rx_thread
rx_thread-rx_bytes rx_cb [] s = unfold rx_bytes in refl
rx_thread-rx_bytes rx_cb (got bs ∷ events) s =
    rx_thread-rx_bytes rx_cb events (rx_bytes rx_cb bs s)
    ∙ sym (rx_bytes-append rx_cb bs (incoming events) s)
rx_thread-rx_bytes rx_cb (nothing ∷ events) s = rx_thread-rx_bytes rx_cb events s
rx_thread-rx_bytes rx_cb (try_again ∷ events) s = rx_thread-rx_bytes rx_cb events s
rx_thread-rx_bytes rx_cb (read_error ∷ events) s = unfold rx_bytes in refl
rx_thread-rx_bytes rx_cb (stop ∷ events) s = unfold rx_bytes in refl

end_frame-accum : (rx_cb : Bool) (s : Rx) → (rx_byte rx_cb 0 s).accum ≡ []
unfolding rx_byte end_frame
end_frame-accum rx_cb s = refl

-- The receiver recovers from any noise at the next zero byte. After bytes `noise` of any kind, a
-- zero byte and encoded frames of 1 to 1522 bytes, cut up by the reads in any way, it has
-- delivered all of the frames in order behind what the noise made it deliver, has counted no
-- further error, and is between frames.
pub rx_thread_resync :
    (noise : List ℕ) (frames : List (List ℕ)) (events : List ReadEvent) (s : Rx)
    → All IsFrame frames
    → incoming events ≡ (noise ++ 0 ∷ []) ++ wire_stream frames
    → let after = rx_bytes true (noise ++ 0 ∷ []) s in
      rx_thread true events s ≡ record after { accum = []; delivered = after.delivered ++ frames }
rx_thread_resync noise frames events s v e =
    rx_thread-rx_bytes true events s
    ∙ ap (λ bs. rx_bytes true bs s) e
    ∙ rx_bytes-append true (noise ++ 0 ∷ []) (wire_stream frames) s
    ∙ stream-delivered frames _ v (
        ap (λ (t : Rx). t.accum) (rx_bytes-append true noise (0 ∷ []) s)
        ∙ unfold rx_bytes in end_frame-accum true (rx_bytes true noise s))
