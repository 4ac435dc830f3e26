-- ===== src/Uart/Transport/Send.antt =====
-- The sender, and a sender and a receiver at the two ends of a line.
use mathlib.Core.Path.{ap₂}
use bm_sbc.Prelude.{
  ℕ, ◌+◌, ◌≤◌, ◌<◌, ◌≡◌, ◌⊎◌, refl, ap, sym, ◌∙◌, true, inl, inr, none, some, List, [], ◌∷◌, ◌++◌,
  length, length-append, length-drop, length-replicate, take, drop, take-append, take-append-drop,
  All, append_assoc, append-nil, append-snoc, arith,
}
use bm_sbc.Uart.Cobs.Spec.{encoding}
use bm_sbc.Uart.FrameCodec.{max_l2_size, max_wire_size, payload}
use bm_sbc.Uart.FrameCodec.RoundTrip.{length-payload, frame_encode-Framed, frame_encode-failed}
use bm_sbc.Uart.Transport.{
  WriteEvent, wrote, interrupted, write_error, success, failure, write_loop, Port, uart_l2_send,
  wire_array, rx_start, rx_bytes, rx_thread, ReadEvent,
}
use bm_sbc.Uart.Transport.Receive.{IsFrame}
use bm_sbc.Uart.Transport.Stream.{
  wire_form, wire_stream, incoming, rx_thread-rx_bytes, stream-delivered,
}

-- What is on the line is always a front part of what was to be sent.
write_loop-prefix :
    (bs : List ℕ) (events : List WriteEvent)
    → (rest : List ℕ) × ((write_loop bs events).0 ++ rest ≡ bs)
      × ((write_loop bs events).1 ≡ success → rest ≡ [])
unfolding write_loop
write_loop-prefix [] events = ([], refl, λ _. refl)
write_loop-prefix (b ∷ bs) [] = (b ∷ bs, refl, λ e. cc)
write_loop-prefix (b ∷ bs) (wrote n ∷ events) =
    let (rest, joined, done) = write_loop-prefix (drop n (b ∷ bs)) events in
    (
      rest,
      append_assoc (take n (b ∷ bs)) _ rest
          ∙ ap (◌++◌ (take n (b ∷ bs))) joined
          ∙ take-append-drop n (b ∷ bs),
      done,
    )
write_loop-prefix (b ∷ bs) (interrupted ∷ events) = write_loop-prefix (b ∷ bs) events
write_loop-prefix (b ∷ bs) (write_error ∷ events) = (b ∷ bs, refl, λ e. cc)

-- How many bytes the writes take, if none fails.
abbrev pub taken : List WriteEvent → ℕ
taken [] = 0
taken (wrote n ∷ events) = n + taken events
taken (interrupted ∷ events) = taken events
taken (write_error ∷ events) = 0

write_loop-success :
    (bs : List ℕ) (events : List WriteEvent)
    → length bs ≤ taken events
    → (write_loop bs events).1 ≡ success
unfolding write_loop
write_loop-success [] events h = refl
write_loop-success (b ∷ bs) [] h = absurd (omega arith)
write_loop-success (b ∷ bs) (wrote n ∷ events) h =
    write_loop-success (drop n (b ∷ bs)) events (omega (arith, length-drop n (b ∷ bs)))
write_loop-success (b ∷ bs) (interrupted ∷ events) h = write_loop-success (b ∷ bs) events h
write_loop-success (b ∷ bs) (write_error ∷ events) h = absurd (omega arith)

length-wire_array : length wire_array ≡ max_wire_size
unfolding wire_array
length-wire_array = length-replicate {A = ℕ} max_wire_size 0

-- On an open port a frame goes to the write loop in its wire form.
uart_l2_send-write_loop :
    (p : Port) (fd : ℕ) (l2 : List ℕ) (events : List WriteEvent)
    → p.fd ≡ some fd
    → IsFrame l2
    → uart_l2_send p (some l2) events ≡ write_loop (wire_form l2) events
unfolding uart_l2_send
uart_l2_send-write_loop p fd l2 events e v =
    let block = encoding (payload l2) in
    let size = length-wire_array in
    let (tail, encoded, count) =
      frame_encode-Framed wire_array max_wire_size l2 v.0 v.1 (omega (arith, length-payload l2))
        (omega arith) in
    let front : take (length block + 1) (block ++ 0 ∷ tail) ≡ wire_form l2 =
      ap (take (length block + 1)) (sym (append-snoc block tail 0))
      ∙ take-append (length block + 1) (wire_form l2) tail
          (omega (arith, length-append block (0 ∷ []))) in
    rw (e, uart_l2_send) (ground (arith, encoded, front))

-- On a closed port, and for a frame of no bytes or of more than 1522, the call fails and puts
-- nothing on the line, whatever the writes would return.
pub uart_l2_send-failure :
    (p : Port) (l2 : List ℕ) (events : List WriteEvent)
    → (p.fd ≡ none) ⊎ ((length l2 ≡ 0) ⊎ (max_l2_size < length l2))
    → uart_l2_send p (some l2) events ≡ ([], failure)
unfolding uart_l2_send
uart_l2_send-failure p l2 events (inl e) = rw (e, uart_l2_send)
uart_l2_send-failure p l2 events (inr h) =
    ground (arith, frame_encode-failed wire_array max_wire_size l2 h)

-- Sending a frame of 1 to 1522 bytes on an open port. Whatever the writes return, the line holds
-- a front part of the wire form of the frame, and all of it if the call reports success; and it
-- does report success once the writes, none of them failing, have taken as many bytes.
pub uart_l2_send_lem :
    (p : Port) (fd : ℕ) (l2 : List ℕ) (events : List WriteEvent)
    → p.fd ≡ some fd
    → IsFrame l2
    → let (line, result) = uart_l2_send p (some l2) events in
      ((rest : List ℕ) × (line ++ rest ≡ wire_form l2) × (result ≡ success → line ≡ wire_form l2))
      × (length (wire_form l2) ≤ taken events → result ≡ success)
uart_l2_send_lem p fd l2 events e v = rw (uart_l2_send-write_loop p fd l2 events e v) (
    let (rest, joined, done) = write_loop-prefix (wire_form l2) events in
    (
      (rest, joined, λ r. sym (append-nil _) ∙ ap (◌++◌ _) (sym (done r)) ∙ joined),
      write_loop-success (wire_form l2) events,
    ))

-- The frames that a sender passes to `uart_l2_send` in turn, with what the writes return, and what
-- goes over the line.
unfoldable pub send_all : Port → List (List ℕ × List WriteEvent) → List ℕ
send_all p [] = []
send_all p ((l2, events) ∷ calls) = (uart_l2_send p (some l2) events).0 ++ send_all p calls

abbrev pub Sends : Port → List ℕ × List WriteEvent → Type 0
Sends p (l2, events) = IsFrame l2 × ((uart_l2_send p (some l2) events).1 ≡ success)

abbrev pub frames_of : List (List ℕ × List WriteEvent) → List (List ℕ)
frames_of [] = []
frames_of ((l2, events) ∷ calls) = l2 ∷ frames_of calls

send_all-wire_stream :
    (p : Port) (fd : ℕ) (calls : List (List ℕ × List WriteEvent))
    → p.fd ≡ some fd
    → All (Sends p) calls
    → (send_all p calls ≡ wire_stream (frames_of calls)) × All IsFrame (frames_of calls)
unfolding send_all
send_all-wire_stream p fd [] e h = (refl, tt)
send_all-wire_stream p fd ((l2, events) ∷ calls) e h =
    let (rest, valid) = send_all-wire_stream p fd calls e h.1 in
    let (front, _) = uart_l2_send_lem p fd l2 events e h.0.0 in
    (ap₂ ◌++◌ (front.2 h.0.1) rest, (h.0.0, valid))

-- Two programs at the two ends of a line. If each call of `uart_l2_send` on an open port reports
-- success for a frame of 1 to 1522 bytes, and the receiver reads what went over the line, cut up
-- in any way, then its callback gets exactly those frames in that order, and no error is counted.
pub link_delivers :
    (p : Port) (fd : ℕ) (calls : List (List ℕ × List WriteEvent)) (reads : List ReadEvent)
    → p.fd ≡ some fd
    → All (Sends p) calls
    → incoming reads ≡ send_all p calls
    → rx_thread true reads rx_start
      ≡ record { accum = []; decode_error_count = 0; delivered = frames_of calls }
link_delivers p fd calls reads e h same =
    let (line, valid) = send_all-wire_stream p fd calls e h in
    rx_thread-rx_bytes true reads rx_start
    ∙ ap (λ bs. rx_bytes true bs rx_start) (same ∙ line)
    ∙ stream-delivered (frames_of calls) rx_start valid refl
