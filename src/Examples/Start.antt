-- ===== src/Examples/Start.antt =====
-- The start of the program and its logger: src/core/runtime.cpp and src/core/bm_log.c.
use bm_sbc.Prelude.{
  ◌++◌, ℕ, ◌≡◌, refl, pos, true, false, Option, none, some, List, [], ◌∷◌, is_empty, same_text,
  if◌then◌else◌, arith,
}
use bm_sbc.Core.Log.{Logger, bm_log_init}
use bm_sbc.Core.Log.Files.{LogCall, log_call, sighup, shutdown, run, use_files, bm_log_init-run}
use bm_sbc.Net.VirtualPort.SockPath.{hex_digits}
use bm_sbc.Core.Number.{
  digit_value, is_digit, scan_digits, is_space, skip_space, skip_prefix, scan_number, strtoull,
  parse_hex64,
}
use bm_sbc.Core.Number.RoundTrip.{parse_hex64-hex_digits}
use bm_sbc.Core.Variables.{Settings, warn_text, debug_text, copy, parse_log_level}
use bm_sbc.Core.Flags.{
  Environment, Flag, init_flag, node_id_flag, uart_flag, env_level, seed, apply_flag, apply_flags,
  init_path,
}
use bm_sbc.Core.InitFile.{
  toml_string, toml_other, node_id_key, Toml, log_level_key, load_peers, load_rest, load_init_file,
}
use bm_sbc.Core.Settings.{reapply, or_else, level_or, configure}
use bm_sbc.Core.Settings.Buffers.{Fits, configure-Fits}
use bm_sbc.Core.Settings.Identity.{node_text}
use bm_sbc.Core.Settings.LastFlag.{last_uart, last_level}
use bm_sbc.Core.Settings.Precedence.{file_uart, file_level, configure_precedence}

parse_hex64-hex_digits_example :
    (parse_hex64 (hex_digits 16 255) ≡ some 255)
    × (parse_hex64 (b'0' ∷ b'x' ∷ hex_digits 16 255) ≡ some 255)
parse_hex64-hex_digits_example = parse_hex64-hex_digits 255 (omega arith)

abbrev environment : Environment
environment = record { log_dir = none; log_level = some warn_text; log_stdout = none }

abbrev flags : List Flag
flags = init_flag (b'f' ∷ []) ∷ node_id_flag (b'a' ∷ []) ∷ uart_flag (b'/' ∷ b'u' ∷ []) ∷ []

-- An init file in which every key holds the string "debug", save that the node is left out.
abbrev file : Toml
file key = if same_text key node_id_key then toml_other else toml_string debug_text

abbrev files : List ℕ → Option Toml
files path = some file

abbrev result : Settings
result = record {
  node_id_set = true;
  own_node_id = 10;
  cfg_dir = debug_text;
  socket_dir = debug_text;
  peers = [];
  uart_path = b'/' ∷ b'u' ∷ [];
  baud_rate = pos 115200;
  pcap_path = debug_text;
  log_dir = debug_text;
  log_level = some 3;
  log_stdout = false;
}

starts : configure environment flags files ≡ some result
unfolding digit_value is_digit scan_digits is_space skip_space skip_prefix scan_number strtoull
    parse_hex64 copy parse_log_level seed apply_flag apply_flags load_peers load_rest load_init_file
    reapply init_path configure
starts = refl

configure-Fits_example :
    Fits result
    × ((t : List ℕ) × (node_text flags files ≡ some t) × (parse_hex64 t ≡ some result.own_node_id))
configure-Fits_example = configure-Fits environment flags files result starts

configure_precedence_example :
    let path = init_path flags [] in
    (is_empty path ≡ true
      → (result.uart_path ≡ last_uart flags [])
        × (result.log_level ≡ last_level flags (env_level environment.log_level)))
    × (is_empty path ≡ false
        → (root : Toml) × (files path ≡ some root)
          × (result.uart_path ≡ or_else (last_uart flags []) (file_uart root))
          × (result.log_level
              ≡ level_or
                  (last_level flags (env_level environment.log_level))
                  (file_level (root log_level_key))))
configure_precedence_example = configure_precedence environment flags files result starts

-- A logger that holds a file and was asked to reopen it.
abbrev logger : Logger
logger = record {
  log_fp = some 3;
  log_path = b'/' ∷ b'l' ∷ [];
  prefix = b'[' ∷ b']' ∷ b' ' ∷ [];
  min_level = 2;
  also_stdout = true;
  initialized = true;
  reopen_flag = true;
}

abbrev closed_logger : Logger
closed_logger = record logger { log_fp = none; initialized = false; reopen_flag = false }

abbrev log_calls : List LogCall
log_calls =
    log_call [] none 3 (b'h' ∷ []) ∷ sighup ∷ log_call [] (some 4) 4 (b'i' ∷ []) ∷ shutdown ∷ []

bm_log_init-run_example :
    let (s1, done, first) = bm_log_init none 5 none false (some 3) closed_logger in
    let (s2, later) = run log_calls s1 in use_files none (first ++ later) ≡ some s2.log_fp
bm_log_init-run_example = bm_log_init-run none none 5 false (some 3) closed_logger log_calls refl
