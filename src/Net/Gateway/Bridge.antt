-- ===== src/Net/Gateway/Bridge.antt =====
-- Two gateways at the two ends of a serial line.
use mathlib.Core.Path.{ap₂}
use bm_sbc.Prelude.{
  ℕ, ◌+◌, ◌-◌, append-nil, ◌<◌, ◌≡◌, refl, ap, sym, ◌∙◌, Bool, true, false, some, List, [], ◌∷◌,
  ◌++◌, map, ◌==◌, if◌then◌else◌, length, All, arith,
}
use bm_sbc.Uart.Transport.{
  Port, SendResult, success, failure, waiting, WriteEvent, uart_l2_send, rx_start, ReadEvent,
  rx_thread,
}
use bm_sbc.Uart.Transport.Receive.{IsFrame}
use bm_sbc.Uart.Transport.Stream.{incoming}
use bm_sbc.Uart.Transport.Send.{send_all, Sends, frames_of, link_delivers}
use bm_sbc.Net.Errors.{bm_ok}
use bm_sbc.Net.VirtualPort.{receive, close_fd, unlink_path, bind_path, send_to, link_change}
use bm_sbc.Net.Device.{Trait}
use bm_sbc.Net.Gateway.{
  Gateway, GwEvent, vpd_event, uart_bytes, port_up, uart_err, gw_send, gateway_uart_rx_cb,
  gw_neighbor_discovery_cb, gateway_uart_port,
}
use bm_sbc.Net.Gateway.Routing.{gw_send_routes}

-- The bytes that a call put on the serial line.
abbrev pub line_of : List GwEvent → List ℕ
line_of [] = []
line_of (vpd_event e ∷ es) = line_of es
line_of (uart_bytes bs ∷ es) = bs ++ line_of es
line_of (port_up port ∷ es) = line_of es

-- The frames given to the stack, with their ports.
abbrev pub handed_over : List GwEvent → List (ℕ × List ℕ)
handed_over [] = []
handed_over (vpd_event (receive port frame) ∷ es) = (port, frame) ∷ handed_over es
handed_over (vpd_event (close_fd fd) ∷ es) = handed_over es
handed_over (vpd_event (unlink_path p) ∷ es) = handed_over es
handed_over (vpd_event (bind_path p) ∷ es) = handed_over es
handed_over (vpd_event (send_to fd p d) ∷ es) = handed_over es
handed_over (vpd_event (link_change i up) ∷ es) = handed_over es
handed_over (uart_bytes bs ∷ es) = handed_over es
handed_over (port_up port ∷ es) = handed_over es

module _ {S : Type 0} (t : Trait S) where
  -- Frames sent in turn on the port of the serial link: what they put on the line.
  pub gw_send_all : Gateway S → List (List ℕ × List WriteEvent) → List ℕ
  gw_send_all g [] = []
  gw_send_all g ((frame, events) ∷ calls) =
      line_of (gw_send t events frame g.uart_port g).1 ++ gw_send_all g calls

  -- The frames that come in, each handed to `gateway_uart_rx_cb`; `is_up i` is the state of the port
  -- at the frame of number `i`.
  pub gw_receive_all : (ℕ → Bool) → ℕ → List (List ℕ) → Gateway S → List GwEvent
  gw_receive_all is_up i [] g = []
  gw_receive_all is_up i (frame ∷ frames) g =
      gateway_uart_rx_cb t (is_up i) frame g ++ gw_receive_all is_up (i + 1) frames g

  abbrev pub GwSends : Gateway S → List ℕ × List WriteEvent → Type 0
  GwSends g (frame, events) =
      IsFrame frame × ((gw_send t events frame g.uart_port g).0 ≡ some bm_ok)

  uart_err-success : (r : SendResult) → uart_err r ≡ some bm_ok → r ≡ success
  uart_err-success success e = refl
  uart_err-success failure e = cc
  uart_err-success waiting e = cc

  module _ (g : Gateway S) (last : g.uart_port ≡ g.vpd_ports + 1) where
    gw_send-uart :
        (frame : List ℕ) (events : List WriteEvent)
        → gw_send t events frame g.uart_port g ≡ (
          uart_err (uart_l2_send g.uart (some frame) events).1,
          uart_bytes (uart_l2_send g.uart (some frame) events).0 ∷ [],
        )
    gw_send-uart frame events =
        (gw_send_routes t events frame g.uart_port g last (omega arith)).1 refl

    gw_send_all-send_all :
        (calls : List (List ℕ × List WriteEvent))
        → All (GwSends g) calls
        → (gw_send_all g calls ≡ send_all g.uart calls) × All (Sends g.uart) calls
    unfolding gw_send_all send_all
    gw_send_all-send_all [] h = (refl, tt)
    gw_send_all-send_all ((frame, events) ∷ calls) h =
        let routed = gw_send-uart frame events in
        let (rest, sends) = gw_send_all-send_all calls h.1 in
        let line : line_of (gw_send t events frame g.uart_port g).1
            ≡ (uart_l2_send g.uart (some frame) events).0 =
          ap (λ r. line_of r.1) routed ∙ append-nil _ in
        let took : uart_err (uart_l2_send g.uart (some frame) events).1 ≡ some bm_ok =
          sym (ap (λ r. r.0) routed) ∙ h.0.1 in
        (ap₂ ◌++◌ line rest, ((h.0.0, uart_err-success _ took), sends))

  gateway_uart_rx_cb_lem :
      (is_up : Bool) (frame : List ℕ) (g : Gateway S)
      → t.has_receive g.vpd ≡ true
      → IsFrame frame
      → (rest : List GwEvent)
      → handed_over (gateway_uart_rx_cb t is_up frame g ++ rest)
        ≡ (g.uart_port, frame) ∷ handed_over rest
  unfolding gateway_uart_rx_cb
  gateway_uart_rx_cb_lem is_up frame g r h rest = ground arith

  gw_receive_all-handed_over :
      (is_up : ℕ → Bool) (i : ℕ) (frames : List (List ℕ)) (g : Gateway S)
      → t.has_receive g.vpd ≡ true
      → All IsFrame frames
      → handed_over (gw_receive_all is_up i frames g) ≡ map (λ frame. (g.uart_port, frame)) frames
  unfolding gw_receive_all
  gw_receive_all-handed_over is_up i [] g r h = refl
  gw_receive_all-handed_over is_up i (frame ∷ frames) g r h = ground (
    arith,
    gateway_uart_rx_cb_lem (is_up i) frame g r h.0 (gw_receive_all is_up (i + 1) frames g),
    gw_receive_all-handed_over is_up (i + 1) frames g r h.1,
  )

All-IsFrame :
    (p : Port) (calls : List (List ℕ × List WriteEvent))
    → All (Sends p) calls
    → All IsFrame (frames_of calls)
All-IsFrame p [] h = tt
All-IsFrame p ((frame, events) ∷ calls) h = (h.0.0, All-IsFrame p calls h.1)

-- Two gateways at the two ends of a serial line. If the first has an open line and each send of a
-- frame of 1 to 1522 bytes on its last port succeeds, and the second reads what went over the line,
-- cut up in any way, then the stack of the second gets exactly those frames, in order and as coming
-- from its last port, whether or not that port was up.
pub gateways_bridge :
    {S T : Type 0} (t : Trait S) (u : Trait T) (a : Gateway S) (b : Gateway T) (fd : ℕ)
    (calls : List (List ℕ × List WriteEvent)) (reads : List ReadEvent) (is_up : ℕ → Bool)
    → a.uart_port ≡ a.vpd_ports + 1
    → a.uart.fd ≡ some fd
    → All (GwSends t a) calls
    → incoming reads ≡ gw_send_all t a calls
    → u.has_receive b.vpd ≡ true
    → handed_over (gw_receive_all u is_up 0 (rx_thread true reads rx_start).delivered b)
      ≡ map (λ frame. (b.uart_port, frame)) (frames_of calls)
gateways_bridge t u a b fd calls reads is_up last e h same r =
    let (line, sends) = gw_send_all-send_all t a last calls h in
    let received = link_delivers a.uart fd calls reads e sends (same ∙ line) in
    ap (λ s. handed_over (gw_receive_all u is_up 0 s.delivered b)) received
    ∙ gw_receive_all-handed_over u is_up 0 (frames_of calls) b r (All-IsFrame a.uart calls sends)

-- A frame from the serial line, on a gateway whose device has both callbacks: if the port of the
-- link was down the stack first turns GATEWAY_UART_PORT on; then a frame that is not empty is handed
-- to the stack, with the port of the link. News of a neighbour is passed on only if it is on that
-- port, as a change of the link whose index is one less.
pub uart_callbacks :
    {S : Type 0} (t : Trait S) (g : Gateway S) (frame : List ℕ) (port : ℕ) (up : Bool)
    → t.has_receive g.vpd ≡ true
    → t.has_link_change g.vpd ≡ true
    → 0 < length frame
    → (gateway_uart_rx_cb t true frame g ≡ vpd_event (receive g.uart_port frame) ∷ [])
      × (gateway_uart_rx_cb t false frame g
          ≡ port_up gateway_uart_port ∷ vpd_event (receive g.uart_port frame) ∷ [])
      × (gw_neighbor_discovery_cb t up (some port) g
          ≡ (if port == g.uart_port then vpd_event (link_change (g.uart_port - 1) up) ∷ [] else []))
unfolding gateway_uart_rx_cb gw_neighbor_discovery_cb
uart_callbacks t g frame port up r l h = (ground arith, ground arith, ground arith)
