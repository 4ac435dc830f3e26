-- ===== src/Net/VirtualPort.antt =====
-- src/net/virtual_port_device.cpp and .h: the device of virtual ports over datagram sockets. Each
-- function is one step: it takes what its system calls return, and gives the state afterwards, its
-- result, and the calls that others see, in order. All hold the lock throughout, but for a flood, which
-- takes it for each slot, and `disable`, which takes it twice: their steps are runs in which no other
-- call comes between.
mod State
pub mod SockPath
pub mod Invariant
pub mod Sending
pub mod Receiving
pub mod Topology
pub mod Links
pub use State.*
use SockPath.{sock_path}
use bm_sbc.Net.Errors.{BmErr, bm_ok, bm_einval, bm_eio}
use bm_sbc.Prelude.{
  ℕ, zero, suc, ◌+◌, ◌-◌, Bool, true, false, not, Option, none, some, List, [], ◌∷◌, ◌++◌, ltb,
  ◌==◌, ◌||◌, if◌then◌else◌, length, get_or, set, take, drop,
}

abbrev pub no_peer : PeerEntry
no_peer = record { node_id = 0; send_fd = none; active = false; path = [] }

-- `vpd_num_ports`.
abbrev pub num_ports : ℕ
num_ports = max_peers

-- The slots from `i` on, filled from the configured peers that are left.
pub fill_slots : ℕ → List ℕ → List ℕ → List PeerEntry
fill_slots zero dir ids = []
fill_slots (suc n) dir [] = no_peer ∷ fill_slots n dir []
fill_slots (suc n) dir (id ∷ ids) =
    record { node_id = id; send_fd = none; active = true; path = sock_path dir id }
    ∷ fill_slots n dir ids

-- `virtual_port_device_get`.
pub device_get : VirtualPortCfg → VirtualPort
device_get cfg =
    let num_peers = if ltb max_peers cfg.num_peers then max_peers else cfg.num_peers in
    let dir = take sock_dir_max cfg.socket_dir in
    record {
      peers = fill_slots max_peers dir (take num_peers cfg.peer_ids);
      recv_fd = none;
      own_sock_path = sock_path dir cfg.own_node_id;
      rx_running = false;
      own_node_id = cfg.own_node_id;
      socket_dir = dir;
      enabled = false;
      has_link_change = false;
      has_receive = false;
    }

-- `if (fd < 0) { sfd = socket(); if (sfd >= 0) fd = sfd; }`.
abbrev pub or_socket : Option ℕ → Option ℕ → Option ℕ
or_socket none sfd = sfd
or_socket (some fd) sfd = some fd

-- The loop of `vpd_enable` over the peers from slot `i` on; `socket i` is what `socket` returns.
pub open_sockets : (ℕ → Option ℕ) → ℕ → List PeerEntry → List PeerEntry
open_sockets socket i [] = []
open_sockets socket i (p ∷ ps) =
    (if p.active then record p { send_fd = or_socket p.send_fd (socket i) } else p)
    ∷ open_sockets socket (i + 1) ps

abbrev enabled_state : (ℕ → Option ℕ) → ℕ → VirtualPort → VirtualPort
enabled_state socket rfd s = record s {
  recv_fd = some rfd;
  rx_running = true;
  peers = open_sockets socket 0 s.peers;
}

abbrev start_rx : Bool → ℕ → VirtualPort → Step
start_rx thread_ok rfd s =
    if thread_ok
    then (
      record s { enabled = true },
      bm_ok,
      unlink_path s.own_sock_path ∷ bind_path s.own_sock_path ∷ [],
    )
    else (
      record s { rx_running = false; recv_fd = none },
      bm_eio,
      unlink_path s.own_sock_path
          ∷ bind_path s.own_sock_path
          ∷ close_fd rfd
          ∷ unlink_path s.own_sock_path
          ∷ [],
    )

-- `vpd_enable`. `recv` is what the first `socket` returns, `bind_ok` and `thread_ok` whether `bind`
-- and `pthread_create` succeed.
pub enable : Option ℕ → Bool → (ℕ → Option ℕ) → Bool → VirtualPort → Step
enable recv bind_ok socket thread_ok s = if s.enabled then (s, bm_ok, []) else elim recv [
  | none ↦ (s, bm_eio, [])
  | some rfd ↦
      if not bind_ok
      then (s, bm_eio, unlink_path s.own_sock_path ∷ bind_path s.own_sock_path ∷ close_fd rfd ∷ [])
      else start_rx thread_ok rfd (enabled_state socket rfd s)
]

abbrev pub close_if_open : Option ℕ → List Event
close_if_open none = []
close_if_open (some fd) = close_fd fd ∷ []

-- `vpd_disable`: the loop that closes the send sockets, and the one that notifies.
pub close_events : List PeerEntry → List Event
close_events [] = []
close_events (p ∷ ps) = close_if_open p.send_fd ++ close_events ps

pub close_sockets : List PeerEntry → List PeerEntry
close_sockets [] = []
close_sockets (p ∷ ps) = record p { send_fd = none } ∷ close_sockets ps

pub down_events : ℕ → List PeerEntry → List Event
down_events i [] = []
down_events i (p ∷ ps) =
    (if p.active then link_change i false ∷ [] else []) ++ down_events (i + 1) ps

pub disable : VirtualPort → Step
disable s = if not s.enabled then (s, bm_ok, []) else (
  record s { enabled = false; rx_running = false; recv_fd = none; peers = close_sockets s.peers },
  bm_ok,
  close_if_open s.recv_fd
      ++ (unlink_path s.own_sock_path
          ∷ (close_events s.peers ++ (if s.has_link_change then down_events 0 s.peers else []))),
)

abbrev pub bad_port : ℕ → Bool
bad_port port_num = ltb port_num 1 || ltb max_peers port_num

-- `vpd_enable_port`; `sfd` is what `socket` returns if it is called.
pub enable_port : Option ℕ → ℕ → VirtualPort → Step
enable_port sfd port_num s =
    if bad_port port_num
    then (s, bm_einval, [])
    else let idx = port_num - 1 in
      let p = get_or s.peers idx no_peer in
      if not p.active then (s, bm_einval, []) else (
        record s { peers = set s.peers idx (record p { send_fd = or_socket p.send_fd sfd }) },
        bm_ok,
        notify s.has_link_change idx true,
      )

-- `vpd_disable_port`.
pub disable_port : ℕ → VirtualPort → Step
disable_port port_num s =
    if bad_port port_num
    then (s, bm_einval, [])
    else let idx = port_num - 1 in
      let p = get_or s.peers idx no_peer in
      if not p.active then (s, bm_einval, []) else (
        record s { peers = set s.peers idx (record p { send_fd = none }) },
        bm_ok,
        close_if_open p.send_fd ++ notify s.has_link_change idx false,
      )

-- The datagram for a frame that leaves by a port.
abbrev pub dgram : ℕ → List ℕ → List ℕ
dgram port_num frame = port_num ∷ frame

-- One round of the flood: the calls, and whether a `sendto` failed; `sent i` is whether it succeeds.
abbrev pub flood_one : Bool → ℕ → List ℕ → PeerEntry → List Event × Bool
flood_one sent i frame p =
    if p.active
    then elim p.send_fd [
      | none ↦ ([], false)
      | some fd ↦ (send_to fd p.path (dgram (i + 1) frame) ∷ [], not sent)
    ]
    else ([], false)

pub flood : (ℕ → Bool) → ℕ → List ℕ → List PeerEntry → List Event × Bool
flood sent i frame [] = ([], false)
flood sent i frame (p ∷ ps) =
    let (now, failed_now) = flood_one (sent i) i frame p in
    let (later, failed_later) = flood sent (i + 1) frame ps in
    (now ++ later, failed_now || failed_later)

abbrev pub flood_result : List Event × Bool → BmErr × List Event
flood_result (events, any_failed) = ((if any_failed then bm_eio else bm_ok), events)

pub unicast : Bool → ℕ → List ℕ → PeerEntry → BmErr × List Event
unicast sent port frame p =
    if p.active
    then elim p.send_fd [
      | none ↦ (bm_einval, [])
      | some fd ↦ ((if sent then bm_ok else bm_eio), send_to fd p.path (dgram port frame) ∷ [])
    ]
    else (bm_einval, [])

-- `vpd_send`. The state does not change.
pub send : (ℕ → Bool) → Option (List ℕ) → ℕ → VirtualPort → BmErr × List Event
send sent none port s = (bm_einval, [])
send sent (some frame) port s =
    if length frame == 0 || ltb max_frame_len (length frame)
    then (bm_einval, [])
    else if ltb max_peers port
    then (bm_einval, [])
    else if port == 0
    then flood_result (flood sent 0 frame s.peers)
    else unicast (sent (port - 1)) port frame (get_or s.peers (port - 1) no_peer)

-- `vpd_retry_negotiation`: the step, and the value of `*renegotiated`. `reachable` is whether the
-- peer's socket exists, `sfd` what `socket` returns if it is called.
abbrev pub reconnect : Option ℕ → ℕ → PeerEntry → VirtualPort → Step × Bool
reconnect sfd idx p s = elim (or_socket p.send_fd sfd) [
  | none ↦ ((s, bm_ok, []), false)
  | some fd ↦ (
    (
      record s { peers = set s.peers idx (record p { send_fd = some fd }) },
      bm_ok,
      notify s.has_link_change idx true,
    ),
    true,
  )
]

unfoldable pub retry_negotiation : Bool → Option ℕ → ℕ → VirtualPort → Step × Bool
retry_negotiation reachable sfd port_num s =
    if bad_port port_num
    then ((s, bm_einval, []), false)
    else let idx = port_num - 1 in
      let p = get_or s.peers idx no_peer in
      if not p.active
      then ((s, bm_ok, []), false)
      else if not reachable
      then ((s, bm_ok, []), false)
      else reconnect sfd idx p s

-- What `recvfrom` leaves in the buffer of a datagram: it is cut to VIRTUAL_PORT_MAX_DGRAM_LEN.
pub received : List ℕ → List ℕ
received datagram = take max_dgram_len datagram

-- What the receiving thread does with the bytes of the buffer.
pub dispatch_buf : Bool → List ℕ → List Event
dispatch_buf has_receive buf =
    let port_num = get_or buf 0 0 in
    if ltb (length buf) min_dgram_len
    then []
    else if bad_port port_num
    then []
    else if has_receive
    then receive port_num (drop 1 buf) ∷ []
    else []

-- A result of `recvfrom`, or the loop's test that fails.
pub data RecvEvent : Type 0 where
  datagram : List ℕ → RecvEvent
  timed_out recv_error stopped : RecvEvent

-- `vpd_rx_thread`; the end of the list means that the thread still waits.
pub rx_thread : Bool → List RecvEvent → List Event
rx_thread has_receive [] = []
rx_thread has_receive (datagram d ∷ rest) =
    dispatch_buf has_receive (received d) ++ rx_thread has_receive rest
rx_thread has_receive (timed_out ∷ rest) = rx_thread has_receive rest
rx_thread has_receive (recv_error ∷ rest) = []
rx_thread has_receive (stopped ∷ rest) = []
