-- ===== src/Net/VirtualPort/Sending.antt =====
-- What `vpd_send` puts on which sockets.
use bm_sbc.Prelude.{
  ℕ, ◌+◌, ◌-◌, ◌≤◌, ◌<◌, ◌≡◌, ◌⊎◌, refl, ap, ◌∙◌, Bool, true, false, not, Option, none, some, List,
  [], ◌∷◌, ◌++◌, ◌||◌, ◌&&◌, if◌then◌else◌, length, get_or, get_elem?, get_or-get_elem?, arith,
}
use bm_sbc.Net.Errors.{bm_ok, bm_einval, bm_eio}
use bm_sbc.Net.VirtualPort.{
  PeerEntry, VirtualPort, Event, send_to, max_peers, max_frame_len, no_peer, dgram, flood, unicast,
  send,
}

-- The datagram for the peer in slot `i`, if it has an open socket.
abbrev pub datagram_for : ℕ → List ℕ → PeerEntry → List Event
datagram_for i frame p =
    if p.active
    then elim p.send_fd [ none ↦ [] | some fd ↦ send_to fd p.path (dgram (i + 1) frame) ∷ [] ]
    else []

abbrev pub to_every_peer : ℕ → List ℕ → List PeerEntry → List Event
to_every_peer i frame [] = []
to_every_peer i frame (p ∷ ps) = datagram_for i frame p ++ to_every_peer (i + 1) frame ps

abbrev pub is_open : Option ℕ → Bool
is_open none = false
is_open (some fd) = true

-- A slot whose datagram is refused by the system.
abbrev pub fails_at : (ℕ → Bool) → ℕ → PeerEntry → Bool
fails_at sent i p = p.active && (is_open p.send_fd && not (sent i))

abbrev pub some_fails : (ℕ → Bool) → ℕ → List PeerEntry → Bool
some_fails sent i [] = false
some_fails sent i (p ∷ ps) = fails_at sent i p || some_fails sent (i + 1) ps

flood_lem :
    (sent : ℕ → Bool) (i : ℕ) (frame : List ℕ) (ps : List PeerEntry)
    → flood sent i frame ps ≡ (to_every_peer i frame ps, some_fails sent i ps)
unfolding flood
flood_lem sent i frame [] = refl
flood_lem sent i frame (p ∷ ps) = ground (arith, flood_lem sent (i + 1) frame ps)

abbrev pub Sendable : List ℕ → Type 0
Sendable frame = (0 < length frame) × (length frame ≤ max_frame_len)

-- A flood hands the frame to each peer with an open socket once, in the order of the slots and
-- under the port number of its slot, and to no other; whatever fails on the way, the others are
-- still sent to, and the result is an I/O error exactly if some datagram was refused.
pub send_flood :
    (sent : ℕ → Bool) (frame : List ℕ) (s : VirtualPort)
    → Sendable frame
    → send sent (some frame) 0 s
      ≡ ((if some_fails sent 0 s.peers then bm_eio else bm_ok), to_every_peer 0 frame s.peers)
unfolding send
send_flood sent frame s h = ground (arith, flood_lem sent 0 frame s.peers)

-- Port 1 to 15: the frame goes to the peer of the slot alone; without a peer or a socket the call is
-- refused.
pub send_unicast :
    (sent : ℕ → Bool) (frame : List ℕ) (i : ℕ) (s : VirtualPort) (p : PeerEntry)
    → Sendable frame
    → i < max_peers
    → get_elem? s.peers i ≡ some p
    → send sent (some frame) (i + 1) s ≡ (
      (if p.active && is_open p.send_fd then (if sent i then bm_ok else bm_eio) else bm_einval),
      datagram_for i frame p,
    )
unfolding send unicast
send_unicast sent frame i s p h lt e =
    let slot : i + 1 - 1 ≡ i = omega arith in
    let peer : get_or s.peers (i + 1 - 1) no_peer ≡ p =
      ap (λ k. get_or s.peers k no_peer) slot ∙ get_or-get_elem? s.peers i p no_peer e in
    ground (arith, peer, ap sent slot)

-- A null frame, an empty one, one of more than 1514 bytes and a port above 15 are refused, and
-- nothing is sent.
pub send_refused :
    (sent : ℕ → Bool) (frame : List ℕ) (port : ℕ) (s : VirtualPort)
    → (length frame ≡ 0) ⊎ ((max_frame_len < length frame) ⊎ (max_peers < port))
    → (send sent (some frame) port s ≡ (bm_einval, [])) × (send sent none port s ≡ (bm_einval, []))
unfolding send
send_refused sent frame port s h = (ground arith, refl)
