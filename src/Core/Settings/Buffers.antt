-- ===== src/Core/Settings/Buffers.antt =====
-- The arrays that hold the settings.
use bm_sbc.Prelude.{
  ℕ, ◌≤◌, ◌<◌, ◌≡◌, not, Option, none, some, List, [], ◌∷◌, leb, length, length-append, length-take,
  is_empty, by_if, same_text, ℤ, arith,
}
use bm_sbc.Core.Number.{parse_hex64}
use bm_sbc.Core.Variables.{
  Settings, cfg_max_peers, socket_dir_max, cfg_dir_max, uart_path_max, pcap_path_max, log_dir_max,
  copy, defaults, parse_log_level, default_socket_dir,
}
use bm_sbc.Core.Flags.{
  Environment, Flag, init_flag, node_id_flag, cfg_dir_flag, peer_flag, socket_dir_flag, uart_flag,
  baud_flag, pcap_flag, log_dir_flag, log_level_flag, log_stdout_flag, unrecognised, seed, env_dir,
  set_node, add_peer, set_baud, set_level, apply_flag, apply_flags, init_path, parse_baud,
}
use bm_sbc.Core.InitFile.{
  Datum, toml_string, toml_int64, toml_boolean, toml_array, toml_other, Toml, text_or, load_node,
  with_peer, load_peers, peers_or, load_level, load_rest, load_after_node, load_init_file,
  node_id_key, cfg_dir_key, socket_dir_key, peers_key, uart_device_key, pcap_key, log_dir_key,
  log_level_key,
}
use bm_sbc.Core.Settings.Identity.{node_text, configure_identity}
use bm_sbc.Core.Settings.{reapply, over, require_node, with_file, configure}

-- Every string fits its array with its zero, and the peers fit theirs.
abbrev pub Fits : Settings → Type 0
Fits s =
    (length s.cfg_dir ≤ cfg_dir_max)
    × (length s.socket_dir ≤ socket_dir_max)
    × (length s.peers ≤ cfg_max_peers)
    × (length s.uart_path ≤ uart_path_max)
    × (length s.pcap_path ≤ pcap_path_max)
    × (length s.log_dir ≤ log_dir_max)

abbrev pub FitsIf : Option Settings → Type 0
FitsIf none = Unit
FitsIf (some s) = Fits s

length-copy : (n : ℕ) (s : List ℕ) → length (copy n s) ≤ n
unfolding copy
length-copy n s = omega (arith, length-take n s)

seed-Fits : (env : Environment) → Fits (seed env)
unfolding seed
seed-Fits env =
    (omega arith, omega arith, omega arith, omega arith, omega arith, env_dir-length env.log_dir)
  where
    env_dir-length : (o : Option (List ℕ)) → length (env_dir o) ≤ log_dir_max
    env_dir-length none = omega arith
    env_dir-length (some env) = length-copy log_dir_max env

set_node-Fits : (s : Settings) (o : Option ℕ) → Fits s → FitsIf (set_node s o)
set_node-Fits s none h = tt
set_node-Fits s (some id) h = h

add_peer-Fits :
    (s : Settings) (o : Option ℕ) → length s.peers < cfg_max_peers → Fits s → FitsIf (add_peer s o)
add_peer-Fits s none l h = tt
add_peer-Fits s (some pid) l h =
    (h.0, h.1, omega (arith, length-append s.peers (pid ∷ [])), h.3, h.4, h.5)

set_baud-Fits : (s : Settings) (o : Option ℤ) → Fits s → FitsIf (set_baud s o)
set_baud-Fits s none h = tt
set_baud-Fits s (some id) h = h

set_level-Fits : (s : Settings) (o : Option ℕ) → Fits s → FitsIf (set_level s o)
set_level-Fits s none h = tt
set_level-Fits s (some id) h = h

apply_flag-Fits : (f : Flag) (s : Settings) → Fits s → FitsIf (apply_flag f s)
unfolding apply_flag
apply_flag-Fits (init_flag t) s h = h
apply_flag-Fits (node_id_flag t) s h = set_node-Fits s (parse_hex64 t) h
apply_flag-Fits (cfg_dir_flag t) s h = (length-copy cfg_dir_max t, h.1, h.2, h.3, h.4, h.5)
apply_flag-Fits (peer_flag t) s h =
    by_if FitsIf (leb cfg_max_peers (length s.peers)) _ _ (λ e. h)
      (λ e. add_peer-Fits s (parse_hex64 t) (ground arith) h)
apply_flag-Fits (socket_dir_flag t) s h = (h.0, length-copy socket_dir_max t, h.2, h.3, h.4, h.5)
apply_flag-Fits (uart_flag t) s h = (h.0, h.1, h.2, length-copy uart_path_max t, h.4, h.5)
apply_flag-Fits (baud_flag t) s h = set_baud-Fits s (parse_baud t) h
apply_flag-Fits (pcap_flag t) s h = (h.0, h.1, h.2, h.3, length-copy pcap_path_max t, h.5)
apply_flag-Fits (log_dir_flag t) s h = (h.0, h.1, h.2, h.3, h.4, length-copy log_dir_max t)
apply_flag-Fits (log_level_flag t) s h = set_level-Fits s (parse_log_level t) h
apply_flag-Fits log_stdout_flag s h = h
apply_flag-Fits unrecognised s h = tt

apply_flags-Fits : (fs : List Flag) (s : Settings) → Fits s → FitsIf (apply_flags fs s)
unfolding apply_flags
apply_flags-Fits [] s h = h
apply_flags-Fits (f ∷ fs) s h =
    go (apply_flag f s) (apply_flag-Fits f s h) (λ s' k. apply_flags-Fits fs s' k)
  where
    go :
        (o : Option Settings)
        → FitsIf o
        → ((s' : Settings) → Fits s' → FitsIf (apply_flags fs s'))
        → FitsIf (elim o as (λ x. Option Settings) [ none ↦ none | some s' ↦ apply_flags fs s' ])
    go none h k = tt
    go (some s') h k = k s' h

text_or-length : (n : ℕ) (d : Datum) (old : List ℕ) → length old ≤ n → length (text_or n d old) ≤ n
text_or-length n (toml_string t) old h = length-copy n t
text_or-length n (toml_int64 i) old h = h
text_or-length n (toml_boolean b) old h = h
text_or-length n (toml_array elems) old h = h
text_or-length n toml_other old h = h

load_peers-length :
    (elems : List (Option (List ℕ))) (peers : List ℕ)
    → length peers ≤ cfg_max_peers
    → length (load_peers elems peers) ≤ cfg_max_peers
unfolding load_peers
load_peers-length [] peers h = h
load_peers-length (none ∷ elems) peers h = ground (arith, load_peers-length elems peers h)
load_peers-length (some t ∷ elems) peers h =
    by_if {A = List ℕ} (λ r. length r ≤ cfg_max_peers) (leb cfg_max_peers (length peers)) _ _
      (λ e. h)
      (λ e.
        load_peers-length elems (with_peer (parse_hex64 t) peers)
          (one_more (parse_hex64 t) (ground arith)))
  where
    one_more :
        (o : Option ℕ) → length peers < cfg_max_peers → length (with_peer o peers) ≤ cfg_max_peers
    one_more none l = h
    one_more (some pid) l = omega (arith, length-append peers (pid ∷ []))

peers_or-length :
    (d : Datum) (old : List ℕ)
    → length old ≤ cfg_max_peers
    → length (peers_or d old) ≤ cfg_max_peers
peers_or-length (toml_string t) old h = h
peers_or-length (toml_int64 i) old h = h
peers_or-length (toml_boolean b) old h = h
peers_or-length (toml_array elems) old h = load_peers-length elems old h
peers_or-length toml_other old h = h

load_rest-Fits : (root : Toml) (s : Settings) → Fits s → Fits (load_rest root s)
unfolding load_rest
load_rest-Fits root s h = (
  text_or-length cfg_dir_max (root cfg_dir_key) s.cfg_dir h.0,
  text_or-length socket_dir_max (root socket_dir_key) s.socket_dir h.1,
  peers_or-length (root peers_key) s.peers h.2,
  text_or-length uart_path_max (root uart_device_key) s.uart_path h.3,
  text_or-length pcap_path_max (root pcap_key) s.pcap_path h.4,
  text_or-length log_dir_max (root log_dir_key) s.log_dir h.5,
)

load_node-Fits : (d : Datum) (s : Settings) → Fits s → FitsIf (load_node d s)
load_node-Fits (toml_string t) s h = set_node-Fits s (parse_hex64 t) h
load_node-Fits (toml_int64 i) s h = h
load_node-Fits (toml_boolean b) s h = h
load_node-Fits (toml_array elems) s h = h
load_node-Fits toml_other s h = h

load_level-Fits : (d : Datum) (s : Settings) → Fits s → FitsIf (load_level d s)
load_level-Fits (toml_string t) s h = set_level-Fits s (parse_log_level t) h
load_level-Fits (toml_int64 i) s h = h
load_level-Fits (toml_boolean b) s h = h
load_level-Fits (toml_array elems) s h = h
load_level-Fits toml_other s h = h

load_after_node-Fits :
    (root : Toml) (o : Option Settings) → FitsIf o → FitsIf (load_after_node root o)
load_after_node-Fits root none h = tt
load_after_node-Fits root (some s) h =
    load_level-Fits (root log_level_key) (load_rest root s) (load_rest-Fits root s h)

load_init_file-Fits : (doc : Option Toml) (s : Settings) → Fits s → FitsIf (load_init_file doc s)
unfolding load_init_file
load_init_file-Fits none s h = tt
load_init_file-Fits (some root) s h =
    load_after_node-Fits root _ (load_node-Fits (root node_id_key) s h)

reapply-Fits : (cli file : Settings) → Fits cli → Fits file → Fits (reapply cli file)
unfolding reapply
reapply-Fits cli file h k = (
  by_if {A = List ℕ} (λ r. length r ≤ cfg_dir_max) (not (is_empty cli.cfg_dir)) _ _ (λ e. h.0)
      (λ e. k.0),
  by_if {A = List ℕ} (λ r. length r ≤ socket_dir_max)
      (not (same_text cli.socket_dir default_socket_dir)) _ _ (λ e. h.1) (λ e. k.1),
  by_if {A = List ℕ} (λ r. length r ≤ cfg_max_peers) (not (is_empty cli.peers)) _ _ (λ e. h.2)
      (λ e. k.2),
  by_if {A = List ℕ} (λ r. length r ≤ uart_path_max) (not (is_empty cli.uart_path)) _ _ (λ e. h.3)
      (λ e. k.3),
  by_if {A = List ℕ} (λ r. length r ≤ pcap_path_max) (not (is_empty cli.pcap_path)) _ _ (λ e. h.4)
      (λ e. k.4),
  by_if {A = List ℕ} (λ r. length r ≤ log_dir_max) (not (is_empty cli.log_dir)) _ _ (λ e. h.5)
      (λ e. k.5),
)

with_file-Fits :
    (files : List ℕ → Option Toml) (path : List ℕ) (o : Option Settings)
    → FitsIf o
    → FitsIf (with_file files path o)
with_file-Fits files path none h = tt
with_file-Fits files path (some cli) h =
    by_if FitsIf (not (is_empty path)) _ _
      (λ e.
        merged (load_init_file (files path) defaults)
          (load_init_file-Fits (files path) defaults default_fits))
      (λ e. h)
  where
    default_fits : Fits defaults
    default_fits = (omega arith, omega arith, omega arith, omega arith, omega arith, omega arith)

    merged : (o : Option Settings) → FitsIf o → FitsIf (over cli o)
    merged none k = tt
    merged (some file) k = reapply-Fits cli file h k

-- Whatever the environment, the flags and the init file hold, a node that starts has the identity
-- that the last flag for it gives as a number, or without such a flag the init file; and its settings
-- fit their arrays: strings of any length are cut, and the peers are at most 16.
pub configure-Fits :
    (env : Environment) (flags : List Flag) (files : List ℕ → Option Toml) (s : Settings)
    → configure env flags files ≡ some s
    → Fits s
      × ((t : List ℕ) × (node_text flags files ≡ some t) × (parse_hex64 t ≡ some s.own_node_id))
unfolding configure
configure-Fits env flags files s e = (
  required (with_file files (init_path flags []) (apply_flags flags (seed env)))
      (with_file-Fits files (init_path flags []) _
        (apply_flags-Fits flags (seed env) (seed-Fits env)))
      e,
  configure_identity env flags files s e,
)
  where
    required : (o : Option Settings) → FitsIf o → require_node o ≡ some s → Fits s
    required none h e = cc
    required (some s') h e = let same : s' ≡ s = ground arith in rw⁻¹ same h
