-- ===== src/Examples/Ports.antt =====
-- The network devices: src/net/virtual_port_device.cpp and src/net/gateway_device.cpp.
use bm_sbc.Prelude.{
  ℕ, ◌+◌, ◌≡◌, refl, ap, ◌∙◌, true, false, none, some, List, [], ◌∷◌, ◌++◌, append-nil, ltb,
  if◌then◌else◌, length, take, drop, take-append-drop, replicate, get_or, All, arith,
}
use bm_sbc.Uart.Transport.{
  ReadEvent, got, try_again, rx_thread, rx_start, success, failure, uart_l2_send,
}
use bm_sbc.Net.Errors.{bm_ok, bm_eio}
use bm_sbc.Net.VirtualPort
use bm_sbc.Net.VirtualPort.{
  PeerEntry, VirtualPort, VirtualPortCfg, Event, send_to, dgram, notify, or_socket, sock_dir_max,
  device_get, enable, disable, retry_negotiation, send, received, dispatch_buf, RecvEvent, datagram,
  timed_out,
}
use bm_sbc.Net.VirtualPort.SockPath.{sock_path, sock_path_injective}
use bm_sbc.Net.VirtualPort.Invariant.{
  IsValid, call_enable, call_disable, call_enable_port, run, run-device_get-IsValid,
}
use bm_sbc.Net.VirtualPort.Sending.{to_every_peer, some_fails, send_flood}
use bm_sbc.Net.Device.{System, vpd_trait}
use bm_sbc.Net.Gateway.{
  Gateway, uart_bytes, vpd_events, uart_err, gateway_device_get, gw_send, gw_retry_negotiation,
}
use bm_sbc.Net.Gateway.Routing.{gw_send_routes, gw_send_flood}
use bm_sbc.Net.Gateway.Retries.{IsBelow, retries, Connects, gw_retry_negotiation_lem}
use bm_sbc.Net.Gateway.Bridge.{gateways_bridge, gw_send_all, gw_receive_all, handed_over}
use bm_sbc.Examples.Link.{frame, open_port, writes, sent}

abbrev peer : PeerEntry
peer = record { node_id = 7; send_fd = some 5; active = true; path = b'/' ∷ b'7' ∷ [] }

abbrev far_peer : PeerEntry
far_peer = record { node_id = 8; send_fd = none; active = true; path = b'/' ∷ b'8' ∷ [] }

-- Two peers, one of them not connected, and 13 empty slots.
abbrev device : VirtualPort
device = record {
  peers = peer ∷ far_peer ∷ replicate 13 VirtualPort.no_peer;
  recv_fd = some 4;
  own_sock_path = b'/' ∷ b'1' ∷ [];
  rx_running = true;
  own_node_id = 1;
  socket_dir = b'/' ∷ [];
  enabled = true;
  has_link_change = true;
  has_receive = true;
}

abbrev config : VirtualPortCfg
config = record { own_node_id = 1; socket_dir = b'/' ∷ []; peer_ids = 7 ∷ 8 ∷ []; num_peers = 2 }

abbrev system : System
system = record {
  recv = some 4;
  bind_ok = true;
  socket = λ i. some (i + 10);
  thread_ok = true;
  sent = λ i. ltb i 1;
  sfd = some 9;
  reachable = true;
}

abbrev gateway : Gateway VirtualPort
gateway = record { vpd = device; vpd_ports = 14; uart_port = 15; uart = open_port }

gw_sent : (gw_send (vpd_trait system) writes frame 15 gateway).0 ≡ some bm_ok
gw_sent =
    ap (λ r. r.0)
      ((gw_send_routes (vpd_trait system) writes frame 15 gateway refl (omega arith)).1 refl)
    ∙ ap uart_err sent

abbrev line : List ℕ
line = gw_send_all (vpd_trait system) gateway ((frame, writes) ∷ [])

abbrev reads : List ReadEvent
reads = got (take 3 line) ∷ try_again ∷ got (drop 3 line) ∷ []

gateways_bridge_example :
    handed_over (
      gw_receive_all
        (vpd_trait system)
        (λ i. false)
        0
        (rx_thread true reads rx_start).delivered
        gateway)
    ≡ (15, frame) ∷ []
gateways_bridge_example =
    gateways_bridge (vpd_trait system) (vpd_trait system) gateway gateway 3 ((frame, writes) ∷ [])
      reads (λ i. false) refl refl (((omega arith, omega arith), gw_sent), tt)
      (ap (λ bs. take 3 line ++ bs) (append-nil (drop 3 line)) ∙ take-append-drop 3 line)
      (unfold vpd_trait in refl)

run-device_get-IsValid_example : IsValid (
    run
      (call_enable (some 4) true (λ i. none) true ∷ call_enable_port (some 6) 2 ∷ call_disable ∷ [])
      (device_get config))
run-device_get-IsValid_example =
    run-device_get-IsValid config
      (call_enable (some 4) true (λ i. none) true ∷ call_enable_port (some 6) 2 ∷ call_disable ∷ [])

send_flood_example : send (λ i. true) (some frame) 0 device ≡ (
  (if some_fails (λ i. true) 0 device.peers then bm_eio else bm_ok),
  to_every_peer 0 frame device.peers,
)
send_flood_example = send_flood (λ i. true) frame device (omega arith, omega arith)

sock_path_injective_example :
    (sock_path (b'/' ∷ b't' ∷ []) 7 ≡ sock_path (b'/' ∷ b't' ∷ []) 8 → ◌≡◌ {A = ℕ} 7 8)
    × (length (sock_path (b'/' ∷ b't' ∷ []) 7) ≡ 31)
sock_path_injective_example =
    sock_path_injective (b'/' ∷ b't' ∷ []) 7 8 (omega arith) (omega arith) (omega arith)

gw_send_flood_example :
    let (line, done) = uart_l2_send open_port (some frame) writes in
    let (result, calls) = gw_send (vpd_trait system) writes frame 0 gateway in
    (calls ≡ vpd_events (to_every_peer 0 frame device.peers) ++ uart_bytes line ∷ [])
    × (done ≡ success → result ≡ some bm_ok)
    × (done ≡ failure
        → result ≡ some (if some_fails system.sent 0 device.peers then bm_eio else bm_ok))
gw_send_flood_example = gw_send_flood system writes frame gateway (omega arith, omega arith)

-- Retries for ports 14, 1 and 15, and then for port 2, whose peer is there but not connected.
abbrev asked : List (System × ℕ)
asked = (system, 14) ∷ (system, 1) ∷ (system, 15) ∷ []

gw_retry_negotiation_lem_example :
    let (g, events) = retries asked (gateway_device_get (vpd_trait system) device open_port) in
    let r = gw_retry_negotiation (vpd_trait system) 2 g in
    Connects 2 true r
    × (get_or r.0.0.vpd.peers 13 VirtualPort.no_peer ≡ get_or device.peers 13 VirtualPort.no_peer)
    × All IsBelow (events ++ r.0.2)
gw_retry_negotiation_lem_example =
    gw_retry_negotiation_lem device open_port asked system 2 9 (omega arith) (omega arith) refl refl
      refl
