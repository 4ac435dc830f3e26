-- ===== src/Net/VirtualPort/Topology.antt =====
-- How `virtual_port_device_get` places the configured peers.
use bm_sbc.Prelude.{
  ℕ, zero, suc, ◌<◌, ◌≡◌, refl, ap, ◌∙◌, true, Option, none, some, List, [], ◌∷◌, if◌then◌else◌,
  ltb, get_elem?, take, arith,
}
use bm_sbc.Net.VirtualPort.{
  PeerEntry, VirtualPortCfg, max_peers, sock_dir_max, no_peer, fill_slots, device_get,
}
use bm_sbc.Net.VirtualPort.SockPath.{sock_path}

-- The slot of a configured peer that has not been connected.
abbrev pub slot_for : List ℕ → Option ℕ → PeerEntry
slot_for dir none = no_peer
slot_for dir (some id) = record {
  node_id = id;
  send_fd = none;
  active = true;
  path = sock_path dir id;
}

fill_slots_lem :
    (n : ℕ) (dir ids : List ℕ) (i : ℕ)
    → i < n
    → get_elem? (fill_slots n dir ids) i ≡ some (slot_for dir (get_elem? ids i))
unfolding fill_slots
fill_slots_lem zero dir ids i h = absurd (omega arith)
fill_slots_lem (suc n) dir [] zero h = refl
fill_slots_lem (suc n) dir [] (suc i) h = fill_slots_lem n dir [] i (omega arith)
fill_slots_lem (suc n) dir (id ∷ ids) zero h = refl
fill_slots_lem (suc n) dir (id ∷ ids) (suc i) h = fill_slots_lem n dir ids i (omega arith)

get_elem?-take :
    (n : ℕ) (xs : List ℕ) (i : ℕ)
    → get_elem? (take n xs) i ≡ (if ltb i n then get_elem? xs i else none)
get_elem?-take zero xs i = ground arith
get_elem?-take (suc n) [] i = ground arith
get_elem?-take (suc n) (x ∷ xs) zero = ground arith
get_elem?-take (suc n) (x ∷ xs) (suc i) = get_elem?-take n xs i ∙ ground arith

-- Port `i + 1` is the port of the `i`-th configured peer, for the first 15 of them; a port behind
-- the last configured peer has none, and peers beyond the 15th are dropped. Nothing is connected.
pub device_get_slots :
    (cfg : VirtualPortCfg) (i : ℕ)
    → i < max_peers
    → get_elem? (device_get cfg).peers i
      ≡ some (
          slot_for
            (take sock_dir_max cfg.socket_dir)
            (if ltb i cfg.num_peers then get_elem? cfg.peer_ids i else none))
unfolding device_get
device_get_slots cfg i h =
    let capped : get_elem?
          (take (if ltb max_peers cfg.num_peers then max_peers else cfg.num_peers) cfg.peer_ids) i
        ≡ (if ltb i cfg.num_peers then get_elem? cfg.peer_ids i else none) =
      get_elem?-take _ cfg.peer_ids i ∙ ground arith in
    fill_slots_lem max_peers _ _ i h
    ∙ ap (λ o. some (slot_for (take sock_dir_max cfg.socket_dir) o)) capped
