-- ===== src/Core/Flags.antt =====
-- The environment and the command line, as src/core/runtime.cpp reads them.
use bm_sbc.Prelude.{
  ℕ, Bool, true, false, not, Option, none, some, List, [], ◌∷◌, ◌++◌, ltb, leb, ◌||◌, if◌then◌else◌,
  length, is_empty, same_text, ℤ, pos, negsuc,
}
use bm_sbc.Core.Number.{parse_hex64, strtol, to_int}
use bm_sbc.Core.Variables.{
  cfg_max_peers, socket_dir_max, cfg_dir_max, uart_path_max, pcap_path_max, log_dir_max, copy,
  parse_log_level, Settings, defaults,
}

-- BM_SBC_LOG_DIR, BM_SBC_LOG_LEVEL and BM_SBC_LOG_STDOUT in the environment.
pub record Environment : Type 0 where
  pub log_dir : Option (List ℕ)
  pub log_level : Option (List ℕ)
  pub log_stdout : Option (List ℕ)

abbrev pub env_dir : Option (List ℕ) → List ℕ
env_dir none = []
env_dir (some env) = copy log_dir_max env

abbrev pub env_level : Option (List ℕ) → Option ℕ
env_level none = none
env_level (some env) = parse_log_level env

abbrev pub env_stdout : Option (List ℕ) → Bool
env_stdout none = false
env_stdout (some env) = same_text env (b'1' ∷ [])

-- The variables before the command line is read.
unfoldable pub seed : Environment → Settings
seed env = record defaults {
  log_dir = env_dir env.log_dir;
  log_level = env_level env.log_level;
  log_stdout = env_stdout env.log_stdout;
}

-- What `getopt_long` returns in turn.
pub data Flag : Type 0 where
  init_flag node_id_flag cfg_dir_flag peer_flag socket_dir_flag uart_flag baud_flag pcap_flag
        log_dir_flag log_level_flag :
      List ℕ → Flag
  log_stdout_flag unrecognised : Flag

abbrev pub set_node : Settings → Option ℕ → Option Settings
set_node s none = none
set_node s (some id) = some (record s { own_node_id = id; node_id_set = true })

abbrev pub add_peer : Settings → Option ℕ → Option Settings
add_peer s none = none
add_peer s (some pid) = some (record s { peers = s.peers ++ pid ∷ [] })

abbrev pub is_positive : ℤ → Bool
is_positive (pos n) = ltb 0 n
is_positive (negsuc n) = false

-- `(int)strtol(optarg, &end, 10)` and its test.
pub parse_baud : List ℕ → Option ℤ
parse_baud optarg =
    if not (is_empty (strtol 10 optarg).1) || not (is_positive (to_int (strtol 10 optarg).0))
    then none
    else some (to_int (strtol 10 optarg).0)

abbrev pub set_baud : Settings → Option ℤ → Option Settings
set_baud s none = none
set_baud s (some baud) = some (record s { baud_rate = baud })

abbrev pub set_level : Settings → Option ℕ → Option Settings
set_level s none = none
set_level s (some level) = some (record s { log_level = some level })

-- One turn of the loop over the flags, on all but the path of the init file; `none` if the start
-- fails.
unfoldable pub apply_flag : Flag → Settings → Option Settings
apply_flag (init_flag optarg) s = some s
apply_flag (node_id_flag optarg) s = set_node s (parse_hex64 optarg)
apply_flag (cfg_dir_flag optarg) s = some (record s { cfg_dir = copy cfg_dir_max optarg })
apply_flag (peer_flag optarg) s =
    if leb cfg_max_peers (length s.peers) then some s else add_peer s (parse_hex64 optarg)
apply_flag (socket_dir_flag optarg) s = some (record s { socket_dir = copy socket_dir_max optarg })
apply_flag (uart_flag optarg) s = some (record s { uart_path = copy uart_path_max optarg })
apply_flag (baud_flag optarg) s = set_baud s (parse_baud optarg)
apply_flag (pcap_flag optarg) s = some (record s { pcap_path = copy pcap_path_max optarg })
apply_flag (log_dir_flag optarg) s = some (record s { log_dir = copy log_dir_max optarg })
apply_flag (log_level_flag optarg) s = set_level s (parse_log_level optarg)
apply_flag log_stdout_flag s = some (record s { log_stdout = true })
apply_flag unrecognised s = none

unfoldable pub apply_flags : List Flag → Settings → Option Settings
apply_flags [] s = some s
apply_flags (f ∷ fs) s = elim (apply_flag f s) [ none ↦ none | some s' ↦ apply_flags fs s' ]

-- `init_path` after the loop.
unfoldable pub init_path : List Flag → List ℕ → List ℕ
init_path [] path = path
init_path (init_flag optarg ∷ fs) path = init_path fs (copy 511 optarg)
init_path (node_id_flag optarg ∷ fs) path = init_path fs path
init_path (cfg_dir_flag optarg ∷ fs) path = init_path fs path
init_path (peer_flag optarg ∷ fs) path = init_path fs path
init_path (socket_dir_flag optarg ∷ fs) path = init_path fs path
init_path (uart_flag optarg ∷ fs) path = init_path fs path
init_path (baud_flag optarg ∷ fs) path = init_path fs path
init_path (pcap_flag optarg ∷ fs) path = init_path fs path
init_path (log_dir_flag optarg ∷ fs) path = init_path fs path
init_path (log_level_flag optarg ∷ fs) path = init_path fs path
init_path (log_stdout_flag ∷ fs) path = init_path fs path
init_path (unrecognised ∷ fs) path = init_path fs path
