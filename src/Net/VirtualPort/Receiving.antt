-- ===== src/Net/VirtualPort/Receiving.antt =====
-- From one process to another: what is received of what was sent.
use bm_sbc.Net.VirtualPort.Sending.{is_open}
use bm_sbc.Prelude.{
  ℕ, ◌+◌, not, ◌++◌, ◌&&◌, ◌≤◌, Bool, true, List, [], ◌∷◌, if◌then◌else◌, ltb, length, All,
  All-append, length-take, arith,
}
use bm_sbc.Net.VirtualPort.{
  PeerEntry, VirtualPort, Event, send_to, close_fd, unlink_path, bind_path, link_change, receive,
  max_peers, max_frame_len, max_dgram_len, received, dispatch_buf, RecvEvent, datagram, timed_out,
  recv_error, stopped, rx_thread,
}

length-received : (d : List ℕ) → length (received d) ≤ max_dgram_len
unfolding received
length-received d = omega (arith, length-take max_dgram_len d)

-- What the callback may rely on.
abbrev pub IsLegal : Event → Type 0
IsLegal (receive port frame) =
    (1 ≤ port) × (port ≤ max_peers) × (14 ≤ length frame) × (length frame ≤ max_frame_len)
IsLegal _ = Unit {0}

dispatch_buf-IsLegal :
    (has_receive : Bool) (buf : List ℕ)
    → length buf ≤ max_dgram_len
    → All IsLegal (dispatch_buf has_receive buf)
unfolding dispatch_buf
dispatch_buf-IsLegal has_receive [] h = ground arith
dispatch_buf-IsLegal has_receive (x ∷ buf) h = ground arith

-- Whatever datagrams arrive, of whatever length and contents, the receive callback is only called
-- with a port of 1 to 15 and a frame of 14 to 1514 bytes.
pub rx_thread-IsLegal :
    (has_receive : Bool) (events : List RecvEvent) → All IsLegal (rx_thread has_receive events)
unfolding rx_thread
rx_thread-IsLegal has_receive [] = tt
rx_thread-IsLegal has_receive (datagram d ∷ rest) =
    All-append IsLegal _ _ (dispatch_buf-IsLegal has_receive (received d) (length-received d))
      (rx_thread-IsLegal has_receive rest)
rx_thread-IsLegal has_receive (timed_out ∷ rest) = rx_thread-IsLegal has_receive rest
rx_thread-IsLegal has_receive (recv_error ∷ rest) = tt
rx_thread-IsLegal has_receive (stopped ∷ rest) = tt

-- What arrives where the datagrams go, each received by one process.
pub arrivals : List Event → List Event
arrivals [] = []
arrivals (send_to fd path d ∷ events) = dispatch_buf true (received d) ++ arrivals events
arrivals (close_fd fd ∷ events) = arrivals events
arrivals (unlink_path path ∷ events) = arrivals events
arrivals (bind_path path ∷ events) = arrivals events
arrivals (link_change idx up ∷ events) = arrivals events
arrivals (receive port frame ∷ events) = arrivals events

-- The peer in slot `i`, if it is there with an open socket, receives the frame on the port of the slot.
abbrev pub reaches : ℕ → List ℕ → PeerEntry → List Event
reaches i frame p = if p.active && is_open p.send_fd then receive (i + 1) frame ∷ [] else []

abbrev pub reaches_all : ℕ → List ℕ → List PeerEntry → List Event
reaches_all i frame [] = []
reaches_all i frame (p ∷ ps) = reaches i frame p ++ reaches_all (i + 1) frame ps

-- A frame that both ends take.
abbrev pub is_whole : List ℕ → Bool
is_whole frame = not (ltb (length frame) 14) && not (ltb max_frame_len (length frame))
