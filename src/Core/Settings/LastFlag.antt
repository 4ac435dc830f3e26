-- ===== src/Core/Settings/LastFlag.antt =====
-- What the command line of src/core/runtime.cpp makes of two of the settings.
use bm_sbc.Prelude.{ℕ, ◌≡◌, refl, Option, none, some, List, [], ◌∷◌, leb, length, by_if, ℤ}
use bm_sbc.Core.Number.{parse_hex64}
use bm_sbc.Core.Variables.{Settings, cfg_max_peers, uart_path_max, copy, parse_log_level}
use bm_sbc.Core.Flags.{
  Flag, init_flag, node_id_flag, cfg_dir_flag, peer_flag, socket_dir_flag, uart_flag, baud_flag,
  pcap_flag, log_dir_flag, log_level_flag, log_stdout_flag, unrecognised, set_node, add_peer,
  set_baud, set_level, apply_flag, apply_flags, parse_baud,
}

-- The path of the serial device and the log level after a flag.
abbrev pub uart_after : Flag → List ℕ → List ℕ
uart_after (init_flag optarg) old = old
uart_after (node_id_flag optarg) old = old
uart_after (cfg_dir_flag optarg) old = old
uart_after (peer_flag optarg) old = old
uart_after (socket_dir_flag optarg) old = old
uart_after (uart_flag optarg) old = copy uart_path_max optarg
uart_after (baud_flag optarg) old = old
uart_after (pcap_flag optarg) old = old
uart_after (log_dir_flag optarg) old = old
uart_after (log_level_flag optarg) old = old
uart_after log_stdout_flag old = old
uart_after unrecognised old = old

abbrev pub level_after : Flag → Option ℕ → Option ℕ
level_after (init_flag optarg) old = old
level_after (node_id_flag optarg) old = old
level_after (cfg_dir_flag optarg) old = old
level_after (peer_flag optarg) old = old
level_after (socket_dir_flag optarg) old = old
level_after (uart_flag optarg) old = old
level_after (baud_flag optarg) old = old
level_after (pcap_flag optarg) old = old
level_after (log_dir_flag optarg) old = old
level_after (log_level_flag optarg) old = parse_log_level optarg
level_after log_stdout_flag old = old
level_after unrecognised old = old

abbrev pub last_uart : List Flag → List ℕ → List ℕ
last_uart [] old = old
last_uart (f ∷ fs) old = last_uart fs (uart_after f old)

abbrev pub last_level : List Flag → Option ℕ → Option ℕ
last_level [] old = old
last_level (f ∷ fs) old = last_level fs (level_after f old)

-- Both after a step that may fail.
abbrev pub Both : Option Settings → List ℕ → Option ℕ → Type 0
Both none uart level = Unit
Both (some s) uart level = (s.uart_path ≡ uart) × (s.log_level ≡ level)

abbrev pub SameBoth : Settings → Option Settings → Type 0
SameBoth s o = Both o s.uart_path s.log_level

pub set_node-same : (s : Settings) (o : Option ℕ) → SameBoth s (set_node s o)
set_node-same s none = tt
set_node-same s (some id) = (refl, refl)

add_peer-same : (s : Settings) (o : Option ℕ) → SameBoth s (add_peer s o)
add_peer-same s none = tt
add_peer-same s (some pid) = (refl, refl)

set_baud-same : (s : Settings) (o : Option ℤ) → SameBoth s (set_baud s o)
set_baud-same s none = tt
set_baud-same s (some baud) = (refl, refl)

pub set_level-Both : (s : Settings) (o : Option ℕ) → Both (set_level s o) s.uart_path o
set_level-Both s none = tt
set_level-Both s (some level) = (refl, refl)

apply_flag-Both :
    (f : Flag) (s : Settings)
    → Both (apply_flag f s) (uart_after f s.uart_path) (level_after f s.log_level)
unfolding apply_flag
apply_flag-Both (init_flag t) s = (refl, refl)
apply_flag-Both (node_id_flag t) s = set_node-same s (parse_hex64 t)
apply_flag-Both (cfg_dir_flag t) s = (refl, refl)
apply_flag-Both (peer_flag t) s =
    by_if (SameBoth s) (leb cfg_max_peers (length s.peers)) _ _ (λ e. (refl, refl))
      (λ e. add_peer-same s (parse_hex64 t))
apply_flag-Both (socket_dir_flag t) s = (refl, refl)
apply_flag-Both (uart_flag t) s = (refl, refl)
apply_flag-Both (baud_flag t) s = set_baud-same s (parse_baud t)
apply_flag-Both (pcap_flag t) s = (refl, refl)
apply_flag-Both (log_dir_flag t) s = (refl, refl)
apply_flag-Both (log_level_flag t) s = set_level-Both s (parse_log_level t)
apply_flag-Both log_stdout_flag s = (refl, refl)
apply_flag-Both unrecognised s = tt

pub apply_flags-Both :
    (fs : List Flag) (s : Settings)
    → Both (apply_flags fs s) (last_uart fs s.uart_path) (last_level fs s.log_level)
unfolding apply_flags
apply_flags-Both [] s = (refl, refl)
apply_flags-Both (f ∷ fs) s =
    go (apply_flag f s) (uart_after f s.uart_path) (level_after f s.log_level) (apply_flag-Both f s)
      (λ s'. apply_flags-Both fs s')
  where
    go :
        (o : Option Settings) (u : List ℕ) (l : Option ℕ)
        → Both o u l
        → ((s' : Settings)
            → Both (apply_flags fs s') (last_uart fs s'.uart_path) (last_level fs s'.log_level))
        → Both
            (elim o as (λ x. Option Settings) [ none ↦ none | some s' ↦ apply_flags fs s' ])
            (last_uart fs u)
            (last_level fs l)
    go none u l b k = tt
    go (some s') u l b k = rw⁻¹ (b.0, b.1) (k s')
