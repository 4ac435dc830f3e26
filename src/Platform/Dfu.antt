-- ===== src/Platform/Dfu.antt =====
-- The steps of an update of the program: src/platform/linux/platform_linux.cpp from
-- `platform_linux_dfu_restore_state` on. A step takes what the calls in it return and gives the state,
-- what is returned, and the events; the files afterwards are `replay (file_ops events)`.
pub mod Atomic
pub mod Outcomes
pub mod Restart
use Prim.Native.Nat.{min}
use bm_sbc.Prelude.{
  ℕ, Bool, true, false, not, Option, none, some, List, [], ◌∷◌, ◌++◌, ◌==◌, ◌&&◌, ◌||◌,
  if◌then◌else◌, length, take, replicate, is_empty,
}
use bm_sbc.Net.Errors.{BmErr, bm_ok, bm_einval, bm_eio, bm_eperm}
use bm_sbc.Platform.Files.{Files, put, remove, hard_link, move, exists}
use bm_sbc.Platform.Image.{ImageCalls, validate_staging_elf, validate_staging_marker}
use bm_sbc.Platform.DfuState.{
  Dfu, DfuEvent, on_files, sync_fd, close_fd, run_pre_exec, log_shutdown, close_all, exec,
}

abbrev pub info_or_zeros : ℕ → (List ℕ → Bool) → List ℕ → List ℕ
info_or_zeros size has_magic bytes =
    if length bytes == size && has_magic bytes then bytes else replicate size 0

-- `platform_linux_dfu_restore_state`: `size` is that of ReboootClientUpdateInfo of the stack, and
-- `has_magic` whether its magic number is right; `opens` and `reads` are of the marker file.
pub dfu_restore_state : ℕ → (List ℕ → Bool) → Bool → ℕ → Files → Dfu → Dfu
dfu_restore_state size has_magic opens reads fs s = elim (fs s.marker_path) [
  | none ↦ s
  | some bytes ↦
      if opens
      then record s { reboot_info = info_or_zeros size has_magic (take reads (take size bytes)) }
      else s
]

-- `replaced` is a call that does not return: the process runs the new program.
pub data Outcome : Type 0 where
  returned : BmErr → Outcome
  replaced : Outcome

pub record PendingCalls : Type 0 where
  pub image : ImageCalls
  pub opens_marker : Bool
  pub writes_marker : ℕ
  pub flushes_marker : ℕ  -- bytes that reach the file; no one asks `fflush`, `fsync` and `fclose`
  pub unlinks_marker : Bool
  pub unlinks_backup : Bool
  pub links : Bool
  pub renames : Bool
  pub execs : Bool
  pub rolls_back : Bool

abbrev pub when {ℓ} : {A : Type ℓ} → Bool → A → List A
when true a = a ∷ []
when false a = []

abbrev pub close_events : Option ℕ → List DfuEvent
close_events none = []
close_events (some fd) = sync_fd fd ∷ close_fd fd ∷ []

-- What comes before `execv`, and the call.
abbrev pub restart_events : Dfu → List DfuEvent
restart_events s =
    when s.has_pre_exec_cb run_pre_exec ++ (log_shutdown ∷ close_all ∷ exec s.install_path ∷ [])

-- The steps 4 to 6: the backup, the swap, the restart.
unfoldable pub swap : PendingCalls → Dfu → Outcome × List DfuEvent
swap c s =
    let backup =
      when c.unlinks_backup (on_files (remove s.backup_path))
      ++ when c.links (on_files (hard_link s.install_path s.backup_path)) in
    let restart = backup ++ (on_files (move s.staging_path s.install_path) ∷ restart_events s) in
    if not c.renames
    then (returned bm_eio, backup ++ when c.unlinks_marker (on_files (remove s.marker_path)))
    else if c.execs
    then (replaced, restart)
    else (
      returned bm_eio,
      restart
          ++ (when c.rolls_back (on_files (move s.backup_path s.install_path))
              ++ when c.unlinks_marker (on_files (remove s.marker_path))),
    )

abbrev pub prepend : List DfuEvent → Outcome × List DfuEvent → Outcome × List DfuEvent
prepend front (outcome, events) = (outcome, front ++ events)

-- The step 3 and those after it.
unfoldable pub write_marker : PendingCalls → Dfu → Outcome × List DfuEvent
write_marker c s =
    let written = min c.writes_marker (length s.reboot_info) in
    let marked =
      on_files (put s.marker_path [])
      ∷ on_files (put s.marker_path (take (min c.flushes_marker written) s.reboot_info))
      ∷ [] in
    if not c.opens_marker
    then (returned bm_eio, [])
    else if not (written == length s.reboot_info)
    then (returned bm_eio, marked ++ when c.unlinks_marker (on_files (remove s.marker_path)))
    else prepend marked (swap c s)

unfoldable pub validate : PendingCalls → List ℕ → Dfu → Files → Bool
validate c app_name s fs =
    validate_staging_elf c.image (fs s.staging_path)
    && validate_staging_marker c.image app_name (fs s.staging_path)

-- `bm_dfu_client_set_pending_and_reset`.
unfoldable pub set_pending_and_reset :
    PendingCalls → List ℕ → Files → Dfu → Dfu × Outcome × List DfuEvent
set_pending_and_reset c app_name fs s =
    if is_empty s.staging_path || not s.has_argv
    then (s, returned bm_eperm, [])
    else if not (validate c app_name s fs)
    then (s, returned bm_einval, [])
    else let (outcome, events) = write_marker c s in
      (record s { dfu_fd = none }, outcome, close_events s.dfu_fd ++ events)

-- `bm_dfu_client_set_confirmed`; a file that cannot be removed stays.
pub set_confirmed : Bool → Bool → Dfu → BmErr × List DfuEvent
set_confirmed unlinks_marker unlinks_backup s = (
  bm_ok,
  when unlinks_marker (on_files (remove s.marker_path))
      ++ when unlinks_backup (on_files (remove s.backup_path)),
)

-- `bm_dfu_client_fail_update_and_reset`.
unfoldable pub fail_update_and_reset :
    Bool → Bool → Bool → Bool → Files → Dfu → Outcome × List DfuEvent
fail_update_and_reset stats renames unlinks execs fs s =
    if not s.has_argv then (returned bm_eperm, []) else (
      (if execs then replaced else returned bm_eio),
      when (stats && (exists (fs s.backup_path) && renames))
            (on_files (move s.backup_path s.install_path))
          ++ (when unlinks (on_files (remove s.marker_path)) ++ restart_events s),
    )
