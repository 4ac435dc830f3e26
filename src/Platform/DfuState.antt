-- ===== src/Platform/DfuState.antt =====
-- What an update of the program needs: the static variables of the DFU part of
-- src/platform/linux/platform_linux.cpp, and the paths that it works on.
pub mod Distinct
pub mod Derived
use mathlib.Core.List.{reverse}
use bm_sbc.Prelude.{
  ℕ, Bool, true, Option, none, some, List, [], ◌∷◌, ◌++◌, ◌==◌, if◌then◌else◌, take, is_empty,
}
use bm_sbc.Platform.Files.{FilePath, FileOp}

pub record Dfu : Type 0 where
  pub install_path : FilePath
  pub staging_path : FilePath
  pub backup_path : FilePath
  pub marker_path : FilePath
  pub dfu_fd : Option ℕ
  pub has_argv : Bool
  pub has_pre_exec_cb : Bool
  pub reboot_info : List ℕ  -- the bytes of `client_update_reboot_info`

-- Calls that others see, in order.
pub data DfuEvent : Type 0 where
  on_files : FileOp → DfuEvent
  sync_fd close_fd : ℕ → DfuEvent
  run_pre_exec log_shutdown close_all : DfuEvent
  exec : FilePath → DfuEvent

unfoldable pub file_ops : List DfuEvent → List FileOp
file_ops [] = []
file_ops (on_files op ∷ events) = op ∷ file_ops events
file_ops (sync_fd fd ∷ events) = file_ops events
file_ops (close_fd fd ∷ events) = file_ops events
file_ops (run_pre_exec ∷ events) = file_ops events
file_ops (log_shutdown ∷ events) = file_ops events
file_ops (close_all ∷ events) = file_ops events
file_ops (exec p ∷ events) = file_ops events

-- `dirname`, on the characters of a path from its end.
pub drop_slashes : List ℕ → List ℕ
drop_slashes [] = []
drop_slashes (c ∷ cs) = let rest = drop_slashes cs in if c == b'/' then rest else c ∷ cs

pub drop_name : List ℕ → List ℕ
drop_name [] = []
drop_name (c ∷ cs) = let rest = drop_name cs in if c == b'/' then c ∷ cs else rest

pub dirname : FilePath → FilePath
unfolding drop_slashes drop_name
dirname p =
    let name_first = drop_slashes (reverse p) in
    let dir = drop_name name_first in
    if is_empty name_first
    then (if is_empty p then b'.' ∷ [] else b'/' ∷ [])
    else if is_empty dir
    then b'.' ∷ []
    else if is_empty (drop_slashes dir)
    then b'/' ∷ []
    else reverse (drop_slashes dir)

abbrev pub staging_text : List ℕ
staging_text = b'.' ∷ b's' ∷ b't' ∷ b'a' ∷ b'g' ∷ b'i' ∷ b'n' ∷ b'g' ∷ []

abbrev pub backup_text : List ℕ
backup_text = b'.' ∷ b'b' ∷ b'a' ∷ b'k' ∷ []

abbrev pub marker_text : List ℕ
marker_text =
    b'/' ∷ b'd' ∷ b'f' ∷ b'u' ∷ b'_' ∷ b'p' ∷ b'e' ∷ b'n' ∷ b'd' ∷ b'i' ∷ b'n' ∷ b'g' ∷ b'.' ∷ b'b'
    ∷ b'i' ∷ b'n' ∷ []

-- `derive_dfu_paths`; `link` is what `readlink` gives. The arrays have PATH_MAX = 4096 bytes.
pub derive_dfu_paths : Option FilePath → Dfu → Dfu
derive_dfu_paths none s = s
derive_dfu_paths (some link) s =
    let install = take 4095 link in
    if is_empty link then s else record s {
      install_path = install;
      staging_path = take 4095 (install ++ staging_text);
      backup_path = take 4095 (install ++ backup_text);
      marker_path = take 4095 (dirname install ++ marker_text);
    }

-- `platform_linux_set_argv` and `platform_linux_set_pre_exec_cb`, with arguments that are not null.
pub set_argv : Option FilePath → Dfu → Dfu
set_argv link s = derive_dfu_paths link (record s { has_argv = true })

unfoldable pub set_pre_exec_cb : Dfu → Dfu
set_pre_exec_cb s = record s { has_pre_exec_cb = true }
