-- ===== src/Net/VirtualPort/Links.antt =====
-- Links going up and down.
use bm_sbc.Prelude.{
  ℕ, zero, suc, ◌+◌, ◌-◌, ◌<◌, ◌≡◌, ◌≢◌, ◌↔◌, ◌⊎◌, refl, ap, ◌∙◌, Bool, true, false, Option, none,
  some, List, [], ◌∷◌, ◌++◌, if◌then◌else◌, ◌&&◌, length, get_elem?, get_or-get_elem?, get_or, set,
  get_elem?-set_self, append-nil, All, arith,
}
use bm_sbc.Net.Errors.{bm_ok, bm_einval, bm_eio}
use bm_sbc.Net.VirtualPort.{
  PeerEntry, VirtualPort, Event, link_change, close_fd, unlink_path, max_peers, no_peer, or_socket,
  notify, retry_negotiation, enable, disable, close_sockets, close_events, down_events,
  close_if_open, enable_port, disable_port, send, send_to, dgram,
}
use bm_sbc.Net.VirtualPort.Invariant.{is_some, IsValid}
use bm_sbc.Net.VirtualPort.Sending.{Sendable, send_unicast}

lt_length : (ps : List PeerEntry) (i : ℕ) (p : PeerEntry) → get_elem? ps i ≡ some p → i < length ps
lt_length [] i p e = cc
lt_length (q ∷ ps) zero p e = omega arith
lt_length (q ∷ ps) (suc i) p e = omega (arith, lt_length ps i p e)

module _ (reachable : Bool) (sfd : Option ℕ) (i : ℕ) (s : VirtualPort) (p : PeerEntry)
    (lt : i < max_peers) (e : get_elem? s.peers i ≡ some p) where
  -- A retry on port `i + 1` reports a connection exactly if the port has a peer whose socket exists
  -- and a send socket is open or could be opened. Then the socket is kept in the slot and the link
  -- of index `i` is reported up; otherwise nothing changes and nothing is reported. It never fails.
  pub retry_negotiation_lem :
      let ((s', err, events), renegotiated) = retry_negotiation reachable sfd (i + 1) s in
      (err ≡ bm_ok)
      × (renegotiated ≡ (p.active && (reachable && is_some (or_socket p.send_fd sfd))))
      × (events ≡ (if renegotiated then notify s.has_link_change i true else []))
      × (s' ≡ (
          if renegotiated
          then record s { peers = set s.peers i (record p { send_fd = or_socket p.send_fd sfd }) }
          else s))
  unfolding retry_negotiation
  retry_negotiation_lem =
      let slot : i + 1 - 1 ≡ i = omega arith in
      let peer : get_or s.peers (i + 1 - 1) no_peer ≡ p =
        ap (λ k. get_or s.peers k no_peer) slot ∙ get_or-get_elem? s.peers i p no_peer e in
      ground (arith, peer, slot)

-- The device after `disable_port`, and after `enable_port` with a new socket, on port `i + 1`.
abbrev pub down : ℕ → VirtualPort → VirtualPort
down i s = (disable_port (i + 1) s).0

abbrev pub up : ℕ → ℕ → VirtualPort → VirtualPort
up fd i s = (enable_port (some fd) (i + 1) s).0

module _ (sent : ℕ → Bool) (frame : List ℕ) (i fd : ℕ) (s : VirtualPort) (p : PeerEntry)
    (h : Sendable frame) (lt : i < max_peers) (e : get_elem? s.peers i ≡ some p)
    (a : p.active ≡ true) where
  slot_down : get_elem? (down i s).peers i ≡ some (record p { send_fd = none })
  unfolding disable_port
  slot_down =
      let slot : i + 1 - 1 ≡ i = omega arith in
      let peer : get_or s.peers (i + 1 - 1) no_peer ≡ p =
        ap (λ k. get_or s.peers k no_peer) slot ∙ get_or-get_elem? s.peers i p no_peer e in
      ground (
        arith,
        peer,
        slot,
        get_elem?-set_self s.peers i (record p { send_fd = none }),
        lt_length s.peers i p e,
      )

  slot_up : get_elem? (up fd i (down i s)).peers i ≡ some (record p { send_fd = some fd })
  unfolding enable_port
  slot_up =
      let slot : i + 1 - 1 ≡ i = omega arith in
      let peer : get_or (down i s).peers (i + 1 - 1) no_peer ≡ record p { send_fd = none } =
        ap (λ k. get_or (down i s).peers k no_peer) slot
        ∙ get_or-get_elem? (down i s).peers i (record p { send_fd = none }) no_peer slot_down in
      ground (
        arith,
        peer,
        slot,
        get_elem?-set_self (down i s).peers i (record p { send_fd = some fd }),
        lt_length (down i s).peers i (record p { send_fd = none }) slot_down,
      )

  -- A port on whose peer the device sends goes down with `disable_port`: whatever is sent on it then
  -- is refused and reaches no socket. After `enable_port` with a new socket the frame reaches the
  -- same peer through that socket.
  pub send-disable_port-enable_port :
      (send sent (some frame) (i + 1) (down i s) ≡ (bm_einval, []))
      × (send sent (some frame) (i + 1) (up fd i (down i s))
          ≡ ((if sent i then bm_ok else bm_eio), send_to fd p.path (dgram (i + 1) frame) ∷ []))
  send-disable_port-enable_port = (
    send_unicast sent frame i (down i s) (record p { send_fd = none }) h lt slot_down
        ∙ ground arith,
    send_unicast sent frame i (up fd i (down i s)) (record p { send_fd = some fd }) h lt slot_up
        ∙ ground arith,
  )

-- The descriptors that the device holds, and those that a step closes.
abbrev pub held : Option ℕ → List ℕ
held none = []
held (some fd) = fd ∷ []

abbrev pub held_by : List PeerEntry → List ℕ
held_by [] = []
held_by (p ∷ ps) = held p.send_fd ++ held_by ps

abbrev pub open_fds : VirtualPort → List ℕ
open_fds s = held s.recv_fd ++ held_by s.peers

abbrev pub closed_fds : List Event → List ℕ
closed_fds [] = []
closed_fds (close_fd fd ∷ events) = fd ∷ closed_fds events
closed_fds (_ ∷ events) = closed_fds events

closed_fds-append : (xs ys : List Event) → closed_fds (xs ++ ys) ≡ closed_fds xs ++ closed_fds ys
closed_fds-append [] ys = refl
closed_fds-append (close_fd fd ∷ xs) ys = ap (◌∷◌ fd) (closed_fds-append xs ys)
closed_fds-append (x ∷ xs) ys = closed_fds-append xs ys

closed_fds-close_events : (ps : List PeerEntry) → closed_fds (close_events ps) ≡ held_by ps
unfolding close_events
closed_fds-close_events [] = refl
closed_fds-close_events (p ∷ ps) = ground (
  arith,
  closed_fds-append (close_if_open p.send_fd) (close_events ps),
  closed_fds-close_events ps,
)

closed_fds-down_events : (i : ℕ) (ps : List PeerEntry) → closed_fds (down_events i ps) ≡ []
unfolding down_events
closed_fds-down_events i [] = refl
closed_fds-down_events i (p ∷ ps) = ground (arith, closed_fds-down_events (i + 1) ps)

held_by-close_sockets : (ps : List PeerEntry) → held_by (close_sockets ps) ≡ []
unfolding close_sockets
held_by-close_sockets [] = refl
held_by-close_sockets (p ∷ ps) = held_by-close_sockets ps

disable-events : (s : VirtualPort) → s.enabled ≡ true → closed_fds (disable s).2 ≡ open_fds s
unfolding disable
disable-events s e =
    let downs : List Event = if s.has_link_change then down_events 0 s.peers else [] in
    ground (
      arith,
      closed_fds-append (close_if_open s.recv_fd)
          (unlink_path s.own_sock_path ∷ (close_events s.peers ++ downs)),
      closed_fds-append (close_events s.peers) downs,
      closed_fds-close_events s.peers,
      closed_fds-down_events 0 s.peers,
      append-nil (held_by s.peers),
    )

-- Disabling an enabled device closes every descriptor that it held, each once, the receive socket
-- first, and leaves it with none, not enabled and its thread told to end.
pub disable_closes :
    (s : VirtualPort)
    → s.enabled ≡ true
    → let (s', err, events) = disable s in
      (err ≡ bm_ok)
      × (closed_fds events ≡ open_fds s)
      × (open_fds s' ≡ [])
      × (s'.enabled ≡ false)
      × (s'.rx_running ≡ false)
unfolding disable
disable_closes s e = (
  ground arith,
  disable-events s e,
  ground (arith, held_by-close_sockets s.peers),
  ground arith,
  ground arith,
)

abbrev pub NoLinkChange : Event → Type 0
NoLinkChange (link_change idx up) = ⊥
NoLinkChange _ = Unit {0}

-- `vpd_enable` on a device with 15 valid slots returns BmOK exactly if the device was enabled before, or the
-- socket, the bind and the thread all succeed; then the device is enabled. Otherwise it is left as
-- it was found, not enabled and with no receive socket. No link is reported up or down.
pub enable_lem :
    (recv : Option ℕ) (bind_ok : Bool) (socket : ℕ → Option ℕ) (thread_ok : Bool) (s : VirtualPort)
    → IsValid s
    → let (s', err, events) = enable recv bind_ok socket thread_ok s in
      ((err ≡ bm_ok)
        ↔ ((s.enabled ≡ true) ⊎ ((recv ≢ none) × (bind_ok ≡ true) × (thread_ok ≡ true))))
      × ((err ≡ bm_ok) → s'.enabled ≡ true)
      × ((err ≢ bm_ok) → (s'.enabled ≡ false) × (s'.recv_fd ≡ none))
      × All NoLinkChange events
unfolding enable
enable_lem recv bind_ok socket thread_ok s v = ground arith
