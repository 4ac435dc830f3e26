-- ===== src/Core/Settings.antt =====
-- Which settings a node starts with: the first half of bm_sbc_runtime_init in src/core/runtime.cpp.
pub mod Identity
pub mod Buffers
pub mod LastFlag
pub mod Precedence
use bm_sbc.Prelude.{
  ℕ, Bool, false, not, Option, none, some, List, [], ◌==◌, ◌||◌, if◌then◌else◌, is_empty, same_text,
  ℤ, pos, negsuc,
}
use bm_sbc.Core.Variables.{default_socket_dir, Settings, defaults}
use bm_sbc.Core.Flags.{Environment, seed, Flag, apply_flags, init_path}
use bm_sbc.Core.InitFile.{Toml, load_init_file}

abbrev pub or_else : List ℕ → List ℕ → List ℕ
or_else cli file = if not (is_empty cli) then cli else file

abbrev pub is_default_baud : ℤ → Bool
is_default_baud (pos n) = n == 115200
is_default_baud (negsuc n) = false

abbrev pub level_or : Option ℕ → Option ℕ → Option ℕ
level_or none file = file
level_or (some level) file = some level

-- The values of the command line, put back over those of the init file.
unfoldable pub reapply : Settings → Settings → Settings
reapply cli file = record {
  node_id_set = cli.node_id_set || file.node_id_set;
  own_node_id = (if cli.node_id_set then cli.own_node_id else file.own_node_id);
  cfg_dir = or_else cli.cfg_dir file.cfg_dir;
  socket_dir =
      (if not (same_text cli.socket_dir default_socket_dir)
        then cli.socket_dir
        else file.socket_dir);
  peers = (if not (is_empty cli.peers) then cli.peers else file.peers);
  uart_path = or_else cli.uart_path file.uart_path;
  baud_rate = (if not (is_default_baud cli.baud_rate) then cli.baud_rate else file.baud_rate);
  pcap_path = or_else cli.pcap_path file.pcap_path;
  log_dir = or_else cli.log_dir file.log_dir;
  log_level = level_or cli.log_level file.log_level;
  log_stdout = cli.log_stdout || file.log_stdout;
}

abbrev pub over : Settings → Option Settings → Option Settings
over cli none = none
over cli (some file) = some (reapply cli file)

abbrev pub require_node : Option Settings → Option Settings
require_node none = none
require_node (some s) = if s.node_id_set then some s else none

abbrev pub with_file : (List ℕ → Option Toml) → List ℕ → Option Settings → Option Settings
with_file files path none = none
with_file files path (some cli) =
    if not (is_empty path) then over cli (load_init_file (files path) defaults) else some cli

-- The first half of `bm_sbc_runtime_init`: the settings with which the node starts, or `none` if it
-- does not start. `files` gives the parsed document of a path.
unfoldable pub configure : Environment → List Flag → (List ℕ → Option Toml) → Option Settings
configure env flags files =
    require_node (with_file files (init_path flags []) (apply_flags flags (seed env)))
