-- ===== src/Uart/Transport.antt =====
-- src/transports/uart_l2/uart_l2_transport.cpp: the port, the sender and the receiver. What the
-- system calls return is an argument: the results of `read` and `write` are lists of events, and
-- the end of such a list means that the thread still waits.
pub mod Receive
pub mod Stream
pub mod Send
pub mod Lifecycle
use bm_sbc.Prelude.{
  ℕ, ◌+◌, Bool, true, false, Option, none, some, List, [], ◌∷◌, ◌++◌, ltb, ◌==◌, ◌||◌, ◌&&◌,
  if◌then◌else◌, length, take, drop, replicate,
}
use bm_sbc.Uart.Cobs.{Outcome, ok, failed, fault}
use bm_sbc.Uart.FrameCodec.{max_l2_size, max_wire_size, frame_encode, frame_decode}

-- The local variables of `rx_thread_func`, and the frames handed to the callback so far.
pub record Rx : Type 0 where
  pub accum : List ℕ
  pub decode_error_count : ℕ
  pub delivered : List (List ℕ)

abbrev pub rx_start : Rx
rx_start = record { accum = []; decode_error_count = 0; delivered = [] }

-- What becomes of a decoded block: the callback, or the error counter.
abbrev pub hand_over : Option (List ℕ) → Rx → Rx
hand_over (some l2) s = record s { delivered = s.delivered ++ l2 ∷ [] }
hand_over none s = record s { decode_error_count = s.decode_error_count + 1 }

-- The end of a frame: decode it if there is data and a callback.
pub end_frame : Bool → Rx → Rx
end_frame rx_cb s =
    let s' =
      if ltb 0 (length s.accum) && rx_cb
      then hand_over (frame_decode (some max_l2_size) (some s.accum)) s
      else s in
    record s' { accum = [] }

-- The body of the loop over the bytes read; `accum` is an array of FRAME_CODEC_MAX_WIRE_SIZE.
pub rx_byte : Bool → ℕ → Rx → Rx
rx_byte rx_cb b s =
    if b == 0
    then end_frame rx_cb s
    else if ltb (length s.accum) max_wire_size
    then record s { accum = s.accum ++ b ∷ [] }
    else record s { accum = [] }

pub rx_bytes : Bool → List ℕ → Rx → Rx
rx_bytes rx_cb [] s = s
rx_bytes rx_cb (b ∷ bs) s = rx_bytes rx_cb bs (rx_byte rx_cb b s)

-- A result of `read`: bytes, 0, EAGAIN or EINTR, or another error; or `s_rx_running` was cleared.
pub data ReadEvent : Type 0 where
  got : List ℕ → ReadEvent
  nothing try_again read_error stop : ReadEvent

-- `rx_thread_func`.
pub rx_thread : Bool → List ReadEvent → Rx → Rx
rx_thread rx_cb [] s = s
rx_thread rx_cb (got bs ∷ events) s = rx_thread rx_cb events (rx_bytes rx_cb bs s)
rx_thread rx_cb (nothing ∷ events) s = rx_thread rx_cb events s
rx_thread rx_cb (try_again ∷ events) s = rx_thread rx_cb events s
rx_thread rx_cb (read_error ∷ events) s = s
rx_thread rx_cb (stop ∷ events) s = s

-- A result of `write`: a count, EINTR, or another error.
pub data WriteEvent : Type 0 where
  wrote : ℕ → WriteEvent
  interrupted write_error : WriteEvent

-- How a call of the sender ends. `waiting`: the write has not returned yet.
pub data SendResult : Type 0 where
  success failure waiting : SendResult

-- `while (remaining > 0)`: what has gone out on the line, and the result.
pub write_loop : List ℕ → List WriteEvent → List ℕ × SendResult
write_loop [] events = ([], success)
write_loop (b ∷ bs) [] = ([], waiting)
write_loop (b ∷ bs) (wrote n ∷ events) =
    let (out, r) = write_loop (drop n (b ∷ bs)) events in (take n (b ∷ bs) ++ out, r)
write_loop (b ∷ bs) (interrupted ∷ events) = write_loop (b ∷ bs) events
write_loop (b ∷ bs) (write_error ∷ events) = ([], failure)

-- The static variables of the module. A file descriptor of -1 is `none`.
pub record Port : Type 0 where
  pub fd : Option ℕ
  pub rx_running : Bool
  pub rx_cb : Bool

abbrev pub closed : Port
closed = record { fd = none; rx_running = false; rx_cb = false }

abbrev pub send_encoded : Outcome (List ℕ × ℕ) → List WriteEvent → List ℕ × SendResult
send_encoded (ok (wire, wire_len)) events =
    if wire_len == 0 then ([], failure) else write_loop (take wire_len wire) events
send_encoded failed events = ([], failure)
send_encoded fault events = ([], failure)

-- The array `wire` of the sender; its first contents are of no account.
pub wire_array : List ℕ
wire_array = replicate max_wire_size 0

-- `uart_l2_send`.
pub uart_l2_send : Port → Option (List ℕ) → List WriteEvent → List ℕ × SendResult
uart_l2_send p none events = ([], failure)
uart_l2_send p (some l2) events = elim p.fd [
  | none ↦ ([], failure)
  | some fd ↦
      if length l2 == 0
      then ([], failure)
      else send_encoded (frame_encode (some wire_array) max_wire_size (some l2)) events
]

-- `baud_to_speed`: `none` is B0.
pub baud_to_speed : ℕ → Option ℕ
baud_to_speed baud =
    if baud == 9600
      || baud == 19200
      || baud == 38400
      || baud == 57600
      || baud == 115200
      || baud == 230400
      || baud == 1500000
      || baud == 1000000
      || baud == 2000000
    then some baud
    else none

-- `serial_open`: `opened` is the descriptor that the system calls on the device yield, if all of
-- them succeed.
pub serial_open : ℕ → Option ℕ → Option ℕ
serial_open baud opened = elim (baud_to_speed baud) [ none ↦ none | some speed ↦ opened ]

abbrev pub start_rx : Bool → Bool → ℕ → Port × Bool
start_rx rx_cb thread_ok fd =
    if thread_ok
    then (record { fd = some fd; rx_running = true; rx_cb = rx_cb }, true)
    else (record { fd = none; rx_running = false; rx_cb = rx_cb }, false)

-- `uart_l2_transport_init`: the port afterwards, and whether 0 was returned. `thread_ok` is
-- whether `pthread_create` succeeds.
pub transport_init : ℕ → Option ℕ → Bool → Bool → Port → Port × Bool
transport_init baud opened rx_cb thread_ok p = elim p.fd [
  | some fd ↦ (p, false)
  | none ↦ elim (serial_open baud opened) [
    | none ↦ (record p { fd = none }, false)
    | some fd ↦ start_rx rx_cb thread_ok fd
  ]
]

-- `uart_l2_transport_deinit`.
pub transport_deinit : Port → Port
transport_deinit p = elim p.fd [ none ↦ p | some fd ↦ closed ]
