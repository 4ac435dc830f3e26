-- ===== src/Net/VirtualPort/Invariant.antt =====
-- What every operation of the device keeps.
use bm_sbc.Prelude.{
  ℕ, zero, suc, ◌+◌, ◌-◌, ◌≡◌, refl, ◌∙◌, Bool, true, false, inl, inr, Option, none, some, List, [],
  ◌∷◌, length, length-set, get_or, set, take, All, Option-cases, arith,
}
use bm_sbc.Net.VirtualPort.{
  PeerEntry, VirtualPort, VirtualPortCfg, max_peers, no_peer, fill_slots, device_get, open_sockets,
  or_socket, enable, close_sockets, disable, reconnect, sock_dir_max, enable_port, disable_port,
  retry_negotiation,
}

abbrev pub is_some : Option ℕ → Bool
is_some none = false
is_some (some fd) = true

-- A slot with no peer holds no socket.
abbrev pub SlotIsValid : PeerEntry → Type 0
SlotIsValid p = p.active ≡ false → p.send_fd ≡ none

-- There is a slot for each port; the device is enabled exactly while its receive socket is open
-- and its thread is to run.
pub record IsValid (s : VirtualPort) : Type 0 where
  pub slots : length s.peers ≡ max_peers
  pub peers_valid : All SlotIsValid s.peers
  pub receiving : is_some s.recv_fd ≡ s.enabled
  pub running : s.rx_running ≡ s.enabled

fill_slots-valid :
    (n : ℕ) (dir ids : List ℕ)
    → (length (fill_slots n dir ids) ≡ n) × All SlotIsValid (fill_slots n dir ids)
unfolding fill_slots
fill_slots-valid zero dir ids = (refl, tt)
fill_slots-valid (suc n) dir [] =
    let r = fill_slots-valid n dir [] in (omega (arith, r.0), (λ e. refl, r.1))
fill_slots-valid (suc n) dir (id ∷ ids) =
    let r = fill_slots-valid n dir ids in (omega (arith, r.0), (λ e. refl, r.1))

open_sockets-valid :
    (socket : ℕ → Option ℕ) (i : ℕ) (ps : List PeerEntry)
    → All SlotIsValid ps
    → (length (open_sockets socket i ps) ≡ length ps) × All SlotIsValid (open_sockets socket i ps)
unfolding open_sockets
open_sockets-valid socket i [] h = (refl, tt)
open_sockets-valid socket i (p ∷ ps) h =
    let r = open_sockets-valid socket (i + 1) ps h.1 in (omega (arith, r.0), (ground arith, r.1))

close_sockets-valid :
    (ps : List PeerEntry)
    → (length (close_sockets ps) ≡ length ps) × All SlotIsValid (close_sockets ps)
unfolding close_sockets
close_sockets-valid [] = (refl, tt)
close_sockets-valid (p ∷ ps) =
    let r = close_sockets-valid ps in (omega (arith, r.0), (λ e. refl, r.1))

set-valid :
    (ps : List PeerEntry) (i : ℕ) (p : PeerEntry)
    → All SlotIsValid ps
    → SlotIsValid p
    → All SlotIsValid (set ps i p)
set-valid [] i p h v = tt
set-valid (q ∷ ps) zero p h v = (v, h.1)
set-valid (q ∷ ps) (suc i) p h v = (h.0, set-valid ps i p h.1 v)

enable-IsValid :
    (recv : Option ℕ) (bind_ok : Bool) (socket : ℕ → Option ℕ) (thread_ok : Bool) (s : VirtualPort)
    → IsValid s
    → IsValid (enable recv bind_ok socket thread_ok s).0
unfolding enable
enable-IsValid recv bind_ok socket thread_ok s v =
    ground (arith, open_sockets-valid socket 0 s.peers v.peers_valid)

disable-IsValid : (s : VirtualPort) → IsValid s → IsValid (disable s).0
unfolding disable
disable-IsValid s v = ground (arith, close_sockets-valid s.peers)

enable_port-IsValid :
    (sfd : Option ℕ) (port_num : ℕ) (s : VirtualPort)
    → IsValid s
    → IsValid (enable_port sfd port_num s).0
unfolding enable_port
enable_port-IsValid sfd port_num s v =
    let p = get_or s.peers (port_num - 1) no_peer in
    ground (
      arith,
      length-set s.peers (port_num - 1) (record p { send_fd = or_socket p.send_fd sfd }),
      set-valid s.peers (port_num - 1) (record p { send_fd = or_socket p.send_fd sfd })
          v.peers_valid,
    )

disable_port-IsValid :
    (port_num : ℕ) (s : VirtualPort) → IsValid s → IsValid (disable_port port_num s).0
unfolding disable_port
disable_port-IsValid port_num s v =
    let p = get_or s.peers (port_num - 1) no_peer in
    ground (
      arith,
      length-set s.peers (port_num - 1) (record p { send_fd = none }),
      set-valid s.peers (port_num - 1) (record p { send_fd = none }) v.peers_valid,
    )

set_some-IsValid :
    (s : VirtualPort) (i : ℕ) (p : PeerEntry)
    → IsValid s
    → SlotIsValid p
    → IsValid (record s { peers = set s.peers i p })
set_some-IsValid s i p v h = record {
  slots = length-set s.peers i p ∙ v.slots;
  peers_valid = set-valid s.peers i p v.peers_valid h;
  receiving = v.receiving;
  running = v.running;
}

reconnect-IsValid :
    (sfd : Option ℕ) (idx : ℕ) (p : PeerEntry) (s : VirtualPort)
    → p.active ≡ true
    → IsValid s
    → IsValid (reconnect sfd idx p s).0.0
reconnect-IsValid sfd idx p s a v = elim (Option-cases (or_socket p.send_fd sfd)) [
  | inl e ↦ rw (e, reconnect) v
  | inr (fd, e) ↦
      rw (e, reconnect) (set_some-IsValid s idx (record p { send_fd = some fd }) v (λ n. cc))
]

retry_negotiation-IsValid :
    (reachable : Bool) (sfd : Option ℕ) (port_num : ℕ) (s : VirtualPort)
    → IsValid s
    → IsValid (retry_negotiation reachable sfd port_num s).0.0
unfolding retry_negotiation
retry_negotiation-IsValid reachable sfd port_num s v =
    ground (arith, reconnect-IsValid sfd (port_num - 1) (get_or s.peers (port_num - 1) no_peer) s)

pub device_get-IsValid : (cfg : VirtualPortCfg) → IsValid (device_get cfg)
unfolding device_get
device_get-IsValid cfg =
    let slots = fill_slots-valid max_peers (take sock_dir_max cfg.socket_dir) _ in
    record { slots = slots.0; peers_valid = slots.1; receiving = refl; running = refl }

-- The operations that change the state, with what their system calls return; and `bm_l2_init`,
-- which sets the callbacks.
pub data Call : Type 0 where
  call_enable : Option ℕ → Bool → (ℕ → Option ℕ) → Bool → Call
  call_disable : Call
  call_enable_port : Option ℕ → ℕ → Call
  call_disable_port : ℕ → Call
  call_retry : Bool → Option ℕ → ℕ → Call
  set_callbacks : Call

pub perform : Call → VirtualPort → VirtualPort
perform (call_enable recv bind_ok socket thread_ok) s = (enable recv bind_ok socket thread_ok s).0
perform call_disable s = (disable s).0
perform (call_enable_port sfd port_num) s = (enable_port sfd port_num s).0
perform (call_disable_port port_num) s = (disable_port port_num s).0
perform (call_retry reachable sfd port_num) s = (retry_negotiation reachable sfd port_num s).0.0
perform set_callbacks s = record s { has_link_change = true; has_receive = true }

pub run : List Call → VirtualPort → VirtualPort
run [] s = s
run (c ∷ cs) s = run cs (perform c s)

perform-IsValid : (c : Call) (s : VirtualPort) → IsValid s → IsValid (perform c s)
unfolding perform
perform-IsValid (call_enable recv bind_ok socket thread_ok) s v =
    enable-IsValid recv bind_ok socket thread_ok s v
perform-IsValid call_disable s v = disable-IsValid s v
perform-IsValid (call_enable_port sfd port_num) s v = enable_port-IsValid sfd port_num s v
perform-IsValid (call_disable_port port_num) s v = disable_port-IsValid port_num s v
perform-IsValid (call_retry reachable sfd port_num) s v =
    retry_negotiation-IsValid reachable sfd port_num s v
perform-IsValid set_callbacks s v = record {
  slots = v.slots;
  peers_valid = v.peers_valid;
  receiving = v.receiving;
  running = v.running;
}

pub run-IsValid : (cs : List Call) (s : VirtualPort) → IsValid s → IsValid (run cs s)
unfolding run
run-IsValid [] s v = v
run-IsValid (c ∷ cs) s v = run-IsValid cs (perform c s) (perform-IsValid c s v)

-- After any calls on a device made from any configuration, whatever the system calls return, there
-- are 15 slots, a slot without a peer holds no socket, and the device is enabled exactly while its
-- receive socket is open and exactly while its thread is told to run.
pub run-device_get-IsValid :
    (cfg : VirtualPortCfg) (cs : List Call) → IsValid (run cs (device_get cfg))
run-device_get-IsValid cfg cs = run-IsValid cs (device_get cfg) (device_get-IsValid cfg)
