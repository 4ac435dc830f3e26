-- ===== src/Core/Variables.antt =====
-- The variables of bm_sbc_runtime_init of src/core/runtime.cpp, the arrays that hold them and their
-- defaults. Strings are those of C, without their zero.
use bm_sbc.Prelude.{
  ℕ, Bool, false, Option, none, some, List, [], ◌∷◌, if◌then◌else◌, take, same_text, ℤ, pos,
}

-- VIRTUAL_PORT_CFG_MAX_PEERS.
abbrev pub cfg_max_peers : ℕ
cfg_max_peers = 16

-- The characters that the arrays hold before their zero.
abbrev pub socket_dir_max : ℕ
socket_dir_max = 78

abbrev pub cfg_dir_max : ℕ
cfg_dir_max = 511

abbrev pub uart_path_max : ℕ
uart_path_max = 127

abbrev pub pcap_path_max : ℕ
pcap_path_max = 255

abbrev pub log_dir_max : ℕ
log_dir_max = 255

-- `strncpy(buf, s, n)` into an array of n + 1 bytes that ends in a zero.
unfoldable pub copy : ℕ → List ℕ → List ℕ
copy n s = take n s

-- VIRTUAL_PORT_DEFAULT_SOCKET_DIR.
abbrev pub default_socket_dir : List ℕ
default_socket_dir = b'/' ∷ b't' ∷ b'm' ∷ b'p' ∷ []

abbrev pub trace_text : List ℕ
trace_text = b't' ∷ b'r' ∷ b'a' ∷ b'c' ∷ b'e' ∷ []

abbrev pub debug_text : List ℕ
debug_text = b'd' ∷ b'e' ∷ b'b' ∷ b'u' ∷ b'g' ∷ []

abbrev pub info_text : List ℕ
info_text = b'i' ∷ b'n' ∷ b'f' ∷ b'o' ∷ []

abbrev pub warn_text : List ℕ
warn_text = b'w' ∷ b'a' ∷ b'r' ∷ b'n' ∷ []

abbrev pub error_text : List ℕ
error_text = b'e' ∷ b'r' ∷ b'r' ∷ b'o' ∷ b'r' ∷ []

abbrev pub fatal_text : List ℕ
fatal_text = b'f' ∷ b'a' ∷ b't' ∷ b'a' ∷ b'l' ∷ []

-- `parse_log_level`: BM_LOG_TRACE is 0, BM_LOG_FATAL is 5, and `none` is -1.
unfoldable pub parse_log_level : List ℕ → Option ℕ
parse_log_level s =
    if same_text s trace_text
    then some 0
    else if same_text s debug_text
    then some 1
    else if same_text s info_text
    then some 2
    else if same_text s warn_text
    then some 3
    else if same_text s error_text
    then some 4
    else if same_text s fatal_text
    then some 5
    else none

-- The variables of `bm_sbc_runtime_init`. The peers are `peer_ids` up to `num_peers`; a log level
-- that is not set is `none`.
pub record Settings : Type 0 where
  pub node_id_set : Bool
  pub own_node_id : ℕ
  pub cfg_dir : List ℕ
  pub socket_dir : List ℕ
  pub peers : List ℕ
  pub uart_path : List ℕ
  pub baud_rate : ℤ
  pub pcap_path : List ℕ
  pub log_dir : List ℕ
  pub log_level : Option ℕ
  pub log_stdout : Bool

abbrev pub defaults : Settings
defaults = record {
  node_id_set = false;
  own_node_id = 0;
  cfg_dir = [];
  socket_dir = default_socket_dir;
  peers = [];
  uart_path = [];
  baud_rate = pos 115200;
  pcap_path = [];
  log_dir = [];
  log_level = none;
  log_stdout = false;
}
