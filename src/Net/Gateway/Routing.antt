-- ===== src/Net/Gateway/Routing.antt =====
-- Where the gateway sends what, and which ports it has.
use bm_sbc.Prelude.{ℕ, ◌+◌, ◌≤◌, ◌<◌, ◌≡◌, ◌⊎◌, some, List, [], ◌∷◌, ◌++◌, if◌then◌else◌, arith}
use bm_sbc.Uart.Transport.{Port, success, failure, WriteEvent, uart_l2_send}
use bm_sbc.Net.Errors.{bm_ok, bm_einval, bm_eio}
use bm_sbc.Net.VirtualPort.{VirtualPort}
use bm_sbc.Net.VirtualPort.Sending.{Sendable, send_flood, to_every_peer, some_fails}
use bm_sbc.Net.Device.{Trait, System, vpd_trait}
use bm_sbc.Net.Gateway.{
  Gateway, uart_bytes, max_total_ports, gateway_uart_port, uart_err, vpd_events, gateway_device_get,
  gw_num_ports, gw_send, gw_enable_port, gw_disable_port,
}

module _ {S : Type 0} (t : Trait S) (vpd_dev : S) (uart : Port) where
  -- Whatever device is wrapped, the gateway has at most 15 ports and the serial link is the last of
  -- them; the ports of the device are all kept if it has at most 14, and else the first 14, in which
  -- case the link is port GATEWAY_UART_PORT.
  pub gateway_device_get_ports :
      let g = gateway_device_get t vpd_dev uart in
      (gw_num_ports t g ≤ max_total_ports)
      × (g.uart_port ≡ gw_num_ports t g)
      × (t.num_ports < max_total_ports → g.vpd_ports ≡ t.num_ports)
      × (max_total_ports ≤ t.num_ports → (g.vpd_ports ≡ 14) × (g.uart_port ≡ gateway_uart_port))
  unfolding gateway_device_get gw_num_ports
  gateway_device_get_ports = ground arith

module _ {S : Type 0} (t : Trait S) (events : List WriteEvent) (frame : List ℕ) (port : ℕ)
    (g : Gateway S) (last : g.uart_port ≡ g.vpd_ports + 1) where
  -- A frame for one port takes one way only. Ports of the wrapped device: the device sends it and
  -- the serial line stays silent. The last port: the line carries it, and the device sees nothing.
  -- A port after that: refused, and nothing is sent.
  pub gw_send_routes :
      0 < port
      → (port ≤ g.vpd_ports
          → gw_send t events frame port g ≡ (
            some (t.send (some frame) port g.vpd).0,
            vpd_events (t.send (some frame) port g.vpd).1,
          ))
        × (port ≡ g.uart_port
            → gw_send t events frame port g ≡ (
              uart_err (uart_l2_send g.uart (some frame) events).1,
              uart_bytes (uart_l2_send g.uart (some frame) events).0 ∷ [],
            ))
        × (g.uart_port < port → gw_send t events frame port g ≡ (some bm_einval, []))
  unfolding gw_send
  gw_send_routes h = (λ a. ground arith, λ a. ground arith, λ a. ground arith)

module _ (y : System) (events : List WriteEvent) (frame : List ℕ) (g : Gateway VirtualPort)
    (h : Sendable frame) where
  -- A flood of a gateway of virtual ports, for a frame of 1 to 1514 bytes: each peer with a socket
  -- gets the frame, and the serial line carries it whether or not a peer refused it. If the line took
  -- it the call succeeds; if the line failed it succeeds exactly if no peer refused it.
  pub gw_send_flood :
      let (line, sent) = uart_l2_send g.uart (some frame) events in
      let (result, calls) = gw_send (vpd_trait y) events frame 0 g in
      (calls ≡ vpd_events (to_every_peer 0 frame g.vpd.peers) ++ uart_bytes line ∷ [])
      × (sent ≡ success → result ≡ some bm_ok)
      × (sent ≡ failure → result ≡ some (if some_fails y.sent 0 g.vpd.peers then bm_eio else bm_ok))
  unfolding gw_send vpd_trait
  gw_send_flood = let sends = send_flood y.sent frame g.vpd h in ground (arith, sends)

module _ {S : Type 0} (t : Trait S) (port : ℕ) (g : Gateway S)
    (last : g.uart_port ≡ g.vpd_ports + 1) where
  -- Turning one port on or off concerns the wrapped device alone, on its own ports. On the port of
  -- the serial link it is accepted and changes nothing; on any other port number, 0 included, it is
  -- refused and changes nothing. So the serial link cannot be turned off this way.
  pub gw_port_switch :
      (port ≡ g.uart_port
        → (gw_enable_port t port g ≡ (g, bm_ok, [])) × (gw_disable_port t port g ≡ (g, bm_ok, [])))
      × ((port ≡ 0) ⊎ (g.uart_port < port)
          → (gw_enable_port t port g ≡ (g, bm_einval, []))
            × (gw_disable_port t port g ≡ (g, bm_einval, [])))
      × (0 < port
          → port ≤ g.vpd_ports
          → ((gw_enable_port t port g).0 ≡ record g { vpd = (t.enable_port port g.vpd).0 })
            × ((gw_disable_port t port g).0 ≡ record g { vpd = (t.disable_port port g.vpd).0 }))
  unfolding gw_enable_port gw_disable_port
  gw_port_switch = ground arith
