-- ===== src/Core/Settings/Identity.antt =====
-- Which identity a node of src/core/runtime.cpp starts with.
use bm_sbc.Prelude.{
  ℕ, ◌≡◌, refl, sym, ap, ◌∙◌, Bool, true, false, not, Option, none, some, List, [], ◌∷◌, leb,
  length, is_empty, by_if, if◌then◌else◌, ℤ, arith,
}
use bm_sbc.Core.Number.{parse_hex64}
use bm_sbc.Core.Variables.{Settings, cfg_max_peers, defaults, parse_log_level}
use bm_sbc.Core.Flags.{
  Environment, Flag, init_flag, node_id_flag, cfg_dir_flag, peer_flag, socket_dir_flag, uart_flag,
  baud_flag, pcap_flag, log_dir_flag, log_level_flag, log_stdout_flag, unrecognised, seed, add_peer,
  set_node, set_baud, set_level, apply_flag, apply_flags, init_path, parse_baud,
}
use bm_sbc.Core.InitFile.{
  Toml, Datum, toml_string, toml_int64, toml_boolean, toml_array, toml_other, log_level_key,
  node_id_key, load_node, load_level, load_rest, load_after_node, load_init_file,
}
use bm_sbc.Core.Settings.{reapply, over, require_node, with_file, configure}

-- The text of the last flag for the identity, and that of the init file.
abbrev pub node_after : Flag → Option (List ℕ) → Option (List ℕ)
node_after (node_id_flag optarg) old = some optarg
node_after (init_flag optarg) old = old
node_after (cfg_dir_flag optarg) old = old
node_after (peer_flag optarg) old = old
node_after (socket_dir_flag optarg) old = old
node_after (uart_flag optarg) old = old
node_after (baud_flag optarg) old = old
node_after (pcap_flag optarg) old = old
node_after (log_dir_flag optarg) old = old
node_after (log_level_flag optarg) old = old
node_after log_stdout_flag old = old
node_after unrecognised old = old

abbrev pub last_node : List Flag → Option (List ℕ) → Option (List ℕ)
last_node [] old = old
last_node (f ∷ fs) old = last_node fs (node_after f old)

abbrev pub node_of : Datum → Option (List ℕ)
node_of (toml_string t) = some t
node_of (toml_int64 i) = none
node_of (toml_boolean b) = none
node_of (toml_array elems) = none
node_of toml_other = none

abbrev pub file_node : Option Toml → Option (List ℕ)
file_node none = none
file_node (some root) = node_of (root node_id_key)

abbrev pub first_of : Option (List ℕ) → Option (List ℕ) → Option (List ℕ)
first_of none later = later
first_of (some t) later = some t

-- The identity is what the text says, and is set exactly if there is one.
abbrev NamedBy : Bool → ℕ → Option (List ℕ) → Type 0
NamedBy is_set id none = is_set ≡ false
NamedBy is_set id (some t) = (is_set ≡ true) × (parse_hex64 t ≡ some id)

abbrev Named : Option Settings → Option (List ℕ) → Type 0
Named none text = Unit
Named (some s) text = NamedBy s.node_id_set s.own_node_id text

-- A step that leaves the identity alone.
abbrev Leaves : Settings → Option Settings → Type 0
Leaves s none = Unit
Leaves s (some s') = (s'.node_id_set ≡ s.node_id_set) × (s'.own_node_id ≡ s.own_node_id)

Leaves-Named :
    (s : Settings) (o : Option Settings) (text : Option (List ℕ))
    → Leaves s o
    → Named (some s) text
    → Named o text
Leaves-Named s none text same named = tt
Leaves-Named s (some s') none same named = same.0 ∙ named
Leaves-Named s (some s') (some t) same named = (same.0 ∙ named.0, named.1 ∙ ap some (sym same.1))

set_node-Named :
    (t : List ℕ) (s : Settings) (o : Option ℕ) → parse_hex64 t ≡ o → Named (set_node s o) (some t)
set_node-Named t s none e = tt
set_node-Named t s (some id) e = (refl, e)

add_peer-Leaves : (s : Settings) (o : Option ℕ) → Leaves s (add_peer s o)
add_peer-Leaves s none = tt
add_peer-Leaves s (some pid) = (refl, refl)

set_baud-Leaves : (s : Settings) (o : Option ℤ) → Leaves s (set_baud s o)
set_baud-Leaves s none = tt
set_baud-Leaves s (some baud) = (refl, refl)

set_level-Leaves : (s : Settings) (o : Option ℕ) → Leaves s (set_level s o)
set_level-Leaves s none = tt
set_level-Leaves s (some level) = (refl, refl)

apply_flag-Named :
    (f : Flag) (s : Settings) (text : Option (List ℕ))
    → Named (some s) text
    → Named (apply_flag f s) (node_after f text)
unfolding apply_flag
apply_flag-Named (init_flag t) s text h = h
apply_flag-Named (node_id_flag t) s text h = set_node-Named t s (parse_hex64 t) refl
apply_flag-Named (cfg_dir_flag t) s text h = h
apply_flag-Named (peer_flag t) s text h =
    by_if (λ o. Named o text) (leb cfg_max_peers (length s.peers)) _ _ (λ e. h)
      (λ e. Leaves-Named s _ text (add_peer-Leaves s (parse_hex64 t)) h)
apply_flag-Named (socket_dir_flag t) s text h = h
apply_flag-Named (uart_flag t) s text h = h
apply_flag-Named (baud_flag t) s text h = Leaves-Named s _ text (set_baud-Leaves s (parse_baud t)) h
apply_flag-Named (pcap_flag t) s text h = h
apply_flag-Named (log_dir_flag t) s text h = h
apply_flag-Named (log_level_flag t) s text h =
    Leaves-Named s _ text (set_level-Leaves s (parse_log_level t)) h
apply_flag-Named log_stdout_flag s text h = h
apply_flag-Named unrecognised s text h = tt

apply_flags-Named :
    (fs : List Flag) (s : Settings) (text : Option (List ℕ))
    → Named (some s) text
    → Named (apply_flags fs s) (last_node fs text)
unfolding apply_flags
apply_flags-Named [] s text h = h
apply_flags-Named (f ∷ fs) s text h =
    go (apply_flag f s) (apply_flag-Named f s text h) (λ s'. apply_flags-Named fs s')
  where
    go :
        (o : Option Settings)
        → Named o (node_after f text)
        → ((s' : Settings) (text : Option (List ℕ))
            → Named (some s') text
            → Named (apply_flags fs s') (last_node fs text))
        → Named
            (elim o as (λ x. Option Settings) [ none ↦ none | some s' ↦ apply_flags fs s' ])
            (last_node fs (node_after f text))
    go none named k = tt
    go (some s') named k = k s' (node_after f text) named

load_node-Named :
    (d : Datum) (s : Settings) → s.node_id_set ≡ false → Named (load_node d s) (node_of d)
load_node-Named (toml_string t) s unset = set_node-Named t s (parse_hex64 t) refl
load_node-Named (toml_int64 i) s unset = unset
load_node-Named (toml_boolean b) s unset = unset
load_node-Named (toml_array elems) s unset = unset
load_node-Named toml_other s unset = unset

load_level-Leaves : (d : Datum) (s : Settings) → Leaves s (load_level d s)
load_level-Leaves (toml_string t) s = set_level-Leaves s (parse_log_level t)
load_level-Leaves (toml_int64 i) s = (refl, refl)
load_level-Leaves (toml_boolean b) s = (refl, refl)
load_level-Leaves (toml_array elems) s = (refl, refl)
load_level-Leaves toml_other s = (refl, refl)

load_after_node-Named :
    (root : Toml) (o : Option Settings) (text : Option (List ℕ))
    → Named o text
    → Named (load_after_node root o) text
unfolding load_rest
load_after_node-Named root none text h = tt
load_after_node-Named root (some s) text h =
    Leaves-Named (load_rest root s) _ text
      (load_level-Leaves (root log_level_key) (load_rest root s)) h

load_init_file-Named : (doc : Option Toml) → Named (load_init_file doc defaults) (file_node doc)
unfolding load_init_file
load_init_file-Named none = tt
load_init_file-Named (some root) =
    load_after_node-Named root (load_node (root node_id_key) defaults) (node_of (root node_id_key))
      (load_node-Named (root node_id_key) defaults refl)

over-Named :
    (cli : Settings) (o : Option Settings) (flag file : Option (List ℕ))
    → Named (some cli) flag
    → Named o file
    → Named (over cli o) (first_of flag file)
unfolding reapply
over-Named cli none flag file h k = tt
over-Named cli (some s) none none h k = ground (arith, h, k)
over-Named cli (some s) none (some t) h k = rw h k
over-Named cli (some s) (some t) file h k = rw (h.0) (refl, h.1)

-- The text that names the node.
abbrev pub node_text : List Flag → (List ℕ → Option Toml) → Option (List ℕ)
node_text flags files =
    let path = init_path flags [] in
    first_of (last_node flags none) (if not (is_empty path) then file_node (files path) else none)

with_file-Named :
    (files : List ℕ → Option Toml) (path : List ℕ) (o : Option Settings) (flag : Option (List ℕ))
    → Named o flag
    → Named
        (with_file files path o)
        (first_of flag (if not (is_empty path) then file_node (files path) else none))
with_file-Named files path none flag h = tt
with_file-Named files [] (some cli) none h = h
with_file-Named files [] (some cli) (some t) h = h
with_file-Named files (c ∷ path) (some cli) flag h =
    over-Named cli (load_init_file (files (c ∷ path)) defaults) flag (file_node (files (c ∷ path)))
      h (load_init_file-Named (files (c ∷ path)))

required :
    (o : Option Settings) (text : Option (List ℕ)) (s : Settings)
    → Named o text
    → require_node o ≡ some s
    → (t : List ℕ) × (text ≡ some t) × (parse_hex64 t ≡ some s.own_node_id)
required none text s h e = absurd (none_is_not e)
  where
    none_is_not : none ≡ some s → ⊥
    none_is_not e = cc
required (some s') none s h e = absurd (ground arith)
required (some s') (some t) s h e = (t, refl, let same : s' ≡ s = ground arith in rw⁻¹ same (h.1))

-- A node that starts is named by the last flag for it, and without one by the init file, and the
-- identity is the number that this text is.
pub configure_identity :
    (env : Environment) (flags : List Flag) (files : List ℕ → Option Toml) (s : Settings)
    → configure env flags files ≡ some s
    → (t : List ℕ) × (node_text flags files ≡ some t) × (parse_hex64 t ≡ some s.own_node_id)
unfolding configure seed
configure_identity env flags files s e =
    required _ (node_text flags files) s
      (with_file-Named files (init_path flags []) (apply_flags flags (seed env))
        (last_node flags none) (apply_flags-Named flags (seed env) none refl))
      e
