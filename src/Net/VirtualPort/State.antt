-- ===== src/Net/VirtualPort/State.antt =====
-- The constants, the state and the calls of src/net/virtual_port_device.cpp and .h.
use bm_sbc.Net.Errors.{BmErr}
use bm_sbc.Prelude.{ℕ, ◌+◌, ◌-◌, Bool, Option, List, [], ◌∷◌, if◌then◌else◌}

-- VIRTUAL_PORT_MAX_PEERS, VIRTUAL_PORT_MAX_FRAME_LEN, VIRTUAL_PORT_MAX_DGRAM_LEN,
-- VIRTUAL_PORT_MIN_DGRAM_LEN, VIRTUAL_PORT_SOCK_DIR_MAX.
abbrev pub max_peers : ℕ
max_peers = 15

abbrev pub max_frame_len : ℕ
max_frame_len = 14 + 1500

abbrev pub max_dgram_len : ℕ
max_dgram_len = 1 + max_frame_len

abbrev pub min_dgram_len : ℕ
min_dgram_len = 1 + 14

abbrev pub sock_dir_max : ℕ
sock_dir_max = 108 - 30

-- PeerEntry. A descriptor of -1 is `none`.
pub record PeerEntry : Type 0 where
  pub node_id : ℕ
  pub send_fd : Option ℕ
  pub active : Bool
  pub path : List ℕ

-- VirtualPortState, without the lock and the thread handle. `has_link_change` and `has_receive`
-- say whether the callbacks are set.
pub record VirtualPort : Type 0 where
  pub peers : List PeerEntry
  pub recv_fd : Option ℕ
  pub own_sock_path : List ℕ
  pub rx_running : Bool
  pub own_node_id : ℕ
  pub socket_dir : List ℕ
  pub enabled : Bool
  pub has_link_change : Bool
  pub has_receive : Bool

-- VirtualPortCfg.
pub record VirtualPortCfg : Type 0 where
  pub own_node_id : ℕ
  pub socket_dir : List ℕ
  pub peer_ids : List ℕ
  pub num_peers : ℕ

-- Calls of the system and of the callbacks.
pub data Event : Type 0 where
  close_fd : ℕ → Event
  unlink_path bind_path : List ℕ → Event
  send_to : ℕ → List ℕ → List ℕ → Event
  link_change : ℕ → Bool → Event
  receive : ℕ → List ℕ → Event

abbrev pub Step : Type 0
Step = VirtualPort × BmErr × List Event

-- `if (lc) lc(idx, up)`.
abbrev pub notify : Bool → ℕ → Bool → List Event
notify has_link_change idx up = if has_link_change then link_change idx up ∷ [] else []
