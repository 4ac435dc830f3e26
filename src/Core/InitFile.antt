-- ===== src/Core/InitFile.antt =====
-- load_init_file of src/core/runtime.cpp.
use bm_sbc.Prelude.{ℕ, Bool, Option, none, some, List, [], ◌∷◌, ◌++◌, leb, if◌then◌else◌, length, ℤ}
use bm_sbc.Core.Number.{parse_hex64, to_int}
use bm_sbc.Core.Variables.{
  cfg_max_peers, socket_dir_max, cfg_dir_max, uart_path_max, pcap_path_max, log_dir_max, copy,
  parse_log_level, Settings,
}
use bm_sbc.Core.Flags.{set_node, set_level}

-- What `toml_get` of the TOML library finds under a key, by the type that it reports; an array gives
-- its strings, and `none` for an element of another type.
pub data Datum : Type 0 where
  toml_string : List ℕ → Datum
  toml_int64 : ℤ → Datum
  toml_boolean : Bool → Datum
  toml_array : List (Option (List ℕ)) → Datum
  toml_other : Datum

abbrev pub Toml : Type 0
Toml = List ℕ → Datum

abbrev pub node_id_key : List ℕ
node_id_key = b'n' ∷ b'o' ∷ b'd' ∷ b'e' ∷ b'-' ∷ b'i' ∷ b'd' ∷ []

abbrev pub cfg_dir_key : List ℕ
cfg_dir_key = b'c' ∷ b'f' ∷ b'g' ∷ b'-' ∷ b'd' ∷ b'i' ∷ b'r' ∷ []

abbrev pub socket_dir_key : List ℕ
socket_dir_key = b's' ∷ b'o' ∷ b'c' ∷ b'k' ∷ b'e' ∷ b't' ∷ b'-' ∷ b'd' ∷ b'i' ∷ b'r' ∷ []

abbrev pub peers_key : List ℕ
peers_key = b'p' ∷ b'e' ∷ b'e' ∷ b'r' ∷ b's' ∷ []

abbrev pub uart_device_key : List ℕ
uart_device_key = b'u' ∷ b'a' ∷ b'r' ∷ b't' ∷ b'-' ∷ b'd' ∷ b'e' ∷ b'v' ∷ b'i' ∷ b'c' ∷ b'e' ∷ []

abbrev pub uart_baud_key : List ℕ
uart_baud_key = b'u' ∷ b'a' ∷ b'r' ∷ b't' ∷ b'-' ∷ b'b' ∷ b'a' ∷ b'u' ∷ b'd' ∷ []

abbrev pub pcap_key : List ℕ
pcap_key = b'p' ∷ b'c' ∷ b'a' ∷ b'p' ∷ []

abbrev pub log_dir_key : List ℕ
log_dir_key = b'l' ∷ b'o' ∷ b'g' ∷ b'-' ∷ b'd' ∷ b'i' ∷ b'r' ∷ []

abbrev pub log_level_key : List ℕ
log_level_key = b'l' ∷ b'o' ∷ b'g' ∷ b'-' ∷ b'l' ∷ b'e' ∷ b'v' ∷ b'e' ∷ b'l' ∷ []

abbrev pub log_stdout_key : List ℕ
log_stdout_key = b'l' ∷ b'o' ∷ b'g' ∷ b'-' ∷ b's' ∷ b't' ∷ b'd' ∷ b'o' ∷ b'u' ∷ b't' ∷ []

abbrev pub text_or : ℕ → Datum → List ℕ → List ℕ
text_or n (toml_string s) old = copy n s
text_or n (toml_int64 i) old = old
text_or n (toml_boolean b) old = old
text_or n (toml_array elems) old = old
text_or n toml_other old = old

abbrev pub int_or : Datum → ℤ → ℤ
int_or (toml_string s) old = old
int_or (toml_int64 i) old = to_int i
int_or (toml_boolean b) old = old
int_or (toml_array elems) old = old
int_or toml_other old = old

abbrev pub bool_or : Datum → Bool → Bool
bool_or (toml_string s) old = old
bool_or (toml_int64 i) old = old
bool_or (toml_boolean b) old = b
bool_or (toml_array elems) old = old
bool_or toml_other old = old

-- The node: what was set is kept unless there is a string; one that is no number fails the load.
abbrev pub load_node : Datum → Settings → Option Settings
load_node (toml_string t) s = set_node s (parse_hex64 t)
load_node (toml_int64 i) s = some s
load_node (toml_boolean b) s = some s
load_node (toml_array elems) s = some s
load_node toml_other s = some s

abbrev pub with_peer : Option ℕ → List ℕ → List ℕ
with_peer none peers = peers
with_peer (some pid) peers = peers ++ pid ∷ []

-- The loop over the array of peers: an element that is no number is passed over.
unfoldable pub load_peers : List (Option (List ℕ)) → List ℕ → List ℕ
load_peers [] peers = peers
load_peers (none ∷ elems) peers =
    let rest = load_peers elems peers in if leb cfg_max_peers (length peers) then peers else rest
load_peers (some t ∷ elems) peers =
    let rest = load_peers elems (with_peer (parse_hex64 t) peers) in
    if leb cfg_max_peers (length peers) then peers else rest

abbrev pub peers_or : Datum → List ℕ → List ℕ
peers_or (toml_string t) old = old
peers_or (toml_int64 i) old = old
peers_or (toml_boolean b) old = old
peers_or (toml_array elems) old = load_peers elems old
peers_or toml_other old = old

abbrev pub load_level : Datum → Settings → Option Settings
load_level (toml_string t) s = set_level s (parse_log_level t)
load_level (toml_int64 i) s = some s
load_level (toml_boolean b) s = some s
load_level (toml_array elems) s = some s
load_level toml_other s = some s

-- What neither the node nor the log level can fail.
unfoldable pub load_rest : Toml → Settings → Settings
load_rest root s = record s {
  cfg_dir = text_or cfg_dir_max (root cfg_dir_key) s.cfg_dir;
  socket_dir = text_or socket_dir_max (root socket_dir_key) s.socket_dir;
  peers = peers_or (root peers_key) s.peers;
  uart_path = text_or uart_path_max (root uart_device_key) s.uart_path;
  baud_rate = int_or (root uart_baud_key) s.baud_rate;
  pcap_path = text_or pcap_path_max (root pcap_key) s.pcap_path;
  log_dir = text_or log_dir_max (root log_dir_key) s.log_dir;
  log_stdout = bool_or (root log_stdout_key) s.log_stdout;
}

abbrev pub load_after_node : Toml → Option Settings → Option Settings
load_after_node root none = none
load_after_node root (some s) = load_level (root log_level_key) (load_rest root s)

-- `load_init_file`: the document is `none` if the file does not parse.
unfoldable pub load_init_file : Option Toml → Settings → Option Settings
load_init_file none s = none
load_init_file (some root) s = load_after_node root (load_node (root node_id_key) s)
