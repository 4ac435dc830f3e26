-- ===== src/Core/Settings/Precedence.antt =====
-- Which of the environment, the command line and the init file a setting comes from.
use mathlib.Core.Path.{subst}
use bm_sbc.Prelude.{
  ℕ, ◌≡◌, refl, ap, ◌∙◌, true, false, Option, none, some, List, [], ◌∷◌, is_empty, arith,
}
use bm_sbc.Core.Number.{parse_hex64}
use bm_sbc.Core.Variables.{Settings, uart_path_max, defaults, parse_log_level}
use bm_sbc.Core.Flags.{Environment, Flag, seed, env_level, apply_flags, init_path}
use bm_sbc.Core.InitFile.{
  Toml, Datum, toml_string, toml_int64, toml_boolean, toml_array, toml_other, uart_device_key,
  log_level_key, node_id_key, text_or, load_node, load_level, load_rest, load_after_node,
  load_init_file,
}
use bm_sbc.Core.Settings.{or_else, level_or, reapply, over, require_node, with_file, configure}
use bm_sbc.Core.Settings.LastFlag.{
  last_uart, last_level, Both, SameBoth, set_node-same, set_level-Both, apply_flags-Both,
}

-- The log level that the init file asks for.
abbrev pub file_level : Datum → Option ℕ
file_level (toml_string t) = parse_log_level t
file_level (toml_int64 i) = none
file_level (toml_boolean b) = none
file_level (toml_array elems) = none
file_level toml_other = none

abbrev pub file_uart : Toml → List ℕ
file_uart root = text_or uart_path_max (root uart_device_key) []

load_node-same : (d : Datum) (s : Settings) → SameBoth s (load_node d s)
load_node-same (toml_string t) s = set_node-same s (parse_hex64 t)
load_node-same (toml_int64 i) s = (refl, refl)
load_node-same (toml_boolean b) s = (refl, refl)
load_node-same (toml_array elems) s = (refl, refl)
load_node-same toml_other s = (refl, refl)

load_level-Both :
    (d : Datum) (s : Settings)
    → s.log_level ≡ none
    → Both (load_level d s) s.uart_path (file_level d)
load_level-Both (toml_string t) s e = set_level-Both s (parse_log_level t)
load_level-Both (toml_int64 i) s e = (refl, e)
load_level-Both (toml_boolean b) s e = (refl, e)
load_level-Both (toml_array elems) s e = (refl, e)
load_level-Both toml_other s e = (refl, e)

load_after_node-Both :
    (root : Toml) (o : Option Settings)
    → Both o [] none
    → Both (load_after_node root o) (file_uart root) (file_level (root log_level_key))
unfolding load_rest
load_after_node-Both root none b = tt
load_after_node-Both root (some s) b =
    let uart : (load_rest root s).uart_path ≡ file_uart root =
      ap (text_or uart_path_max (root uart_device_key)) b.0 in
    rw⁻¹ uart (load_level-Both (root log_level_key) (load_rest root s) b.1)

load_init_file-Both :
    (root : Toml)
    → Both (load_init_file (some root) defaults) (file_uart root) (file_level (root log_level_key))
unfolding load_init_file
load_init_file-Both root =
    load_after_node-Both root (load_node (root node_id_key) defaults)
      (load_node-same (root node_id_key) defaults)

over-Both :
    (cli : Settings) (o : Option Settings) (u : List ℕ) (l : Option ℕ)
    → Both o u l
    → Both (over cli o) (or_else cli.uart_path u) (level_or cli.log_level l)
unfolding reapply
over-Both cli none u l b = tt
over-Both cli (some file) u l b = (ap (or_else cli.uart_path) b.0, ap (level_or cli.log_level) b.1)

-- The settings that a node starts with are those of the step before.
require_node-some : (o : Option Settings) (s : Settings) → require_node o ≡ some s → o ≡ some s
require_node-some none s e = cc
require_node-some (some s') s e = ground arith

module _ (env : Environment) (flags : List Flag) (files : List ℕ → Option Toml) (s : Settings) where
  from_file :
      (cli : Settings) (u : List ℕ) (l : Option ℕ)
      → Both (some cli) u l
      → (doc : Option Toml) → over cli (load_init_file doc defaults) ≡ some s
      → (root : Toml) × (doc ≡ some root)
        × (s.uart_path ≡ or_else u (file_uart root))
        × (s.log_level ≡ level_or l (file_level (root log_level_key)))
  unfolding load_init_file
  from_file cli u l b none e = absurd (none_is_not e)
    where
      none_is_not : none ≡ some s → ⊥
      none_is_not e = cc
  from_file cli u l b (some root) e =
      let both =
        subst
          (λ o.
            Both o (or_else cli.uart_path (file_uart root))
              (level_or cli.log_level (file_level (root log_level_key))))
          e (over-Both cli _ _ _ (load_init_file-Both root)) in
      (
        root,
        refl,
        both.0 ∙ ap (λ v. or_else v (file_uart root)) b.0,
        both.1 ∙ ap (λ v. level_or v (file_level (root log_level_key))) b.1,
      )

  from_flags :
      (path : List ℕ) (u : List ℕ) (l : Option ℕ) (o : Option Settings)
      → Both o u l
      → with_file files path o ≡ some s
      → (is_empty path ≡ true → (s.uart_path ≡ u) × (s.log_level ≡ l))
        × (is_empty path ≡ false
            → (root : Toml) × (files path ≡ some root)
              × (s.uart_path ≡ or_else u (file_uart root))
              × (s.log_level ≡ level_or l (file_level (root log_level_key))))
  from_flags path u l none b e = absurd (none_is_not e)
    where
      none_is_not : none ≡ some s → ⊥
      none_is_not e = cc
  from_flags [] u l (some cli) b e = let both = subst (λ o. Both o u l) e b in (λ y. both, λ n. cc)
  from_flags (c ∷ cs) u l (some cli) b e = (λ y. cc, λ n. from_file cli u l b (files (c ∷ cs)) e)

  cli_Both :
      Both
        (apply_flags flags (seed env))
        (last_uart flags [])
        (last_level flags (env_level env.log_level))
  unfolding seed
  cli_Both = apply_flags-Both flags (seed env)

  -- With which serial device (and so whether as a gateway) and with which log level a node starts.
  -- Without an init file, by the last flag for it; the level then, without a flag, by the
  -- environment. With an init file, which must parse, its values count where there is neither a flag
  -- nor, for the level, an environment variable: the environment goes before the init file.
  pub configure_precedence :
      configure env flags files ≡ some s
      → let path = init_path flags [] in
        (is_empty path ≡ true
          → (s.uart_path ≡ (last_uart flags []))
            × (s.log_level ≡ (last_level flags (env_level env.log_level))))
        × (is_empty path ≡ false
            → (root : Toml) × (files path ≡ some root)
              × (s.uart_path ≡ or_else (last_uart flags []) (file_uart root))
              × (s.log_level
                  ≡ level_or
                      (last_level flags (env_level env.log_level))
                      (file_level (root log_level_key))))
  unfolding configure
  configure_precedence e =
      from_flags (init_path flags []) (last_uart flags [])
        (last_level flags (env_level env.log_level)) _ cli_Both (require_node-some _ s e)
