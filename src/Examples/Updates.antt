-- ===== src/Examples/Updates.antt =====
-- Updates of the program: src/platform/linux/platform_linux.cpp.
use bm_sbc.Prelude.{
  ℕ, ◌≡◌, refl, Bool, true, none, some, List, [], ◌∷◌, ◌++◌, if◌then◌else◌, same_text, ap, get_or,
  starts_with, replicate, leb, arith,
}
use bm_sbc.App.SbcCommand.{Context, context, exited, run_sbc_command}
use bm_sbc.App.SbcCommand.Once.{start_command}
use bm_sbc.App.Undo.{with_hook}
use bm_sbc.App.Undo.Stopping.{StopsBoth, stopped_first}
use bm_sbc.Platform.Files.{Files, replay}
use bm_sbc.Platform.Image.{
  image_text, is_elf, occurs, validate_staging_elf, validate_staging_marker,
}
use bm_sbc.Platform.DfuState.{Dfu, file_ops}
use bm_sbc.Platform.DfuState.Distinct.{Distinct}
use bm_sbc.Platform.Flash.{flash_area_erase}
use bm_sbc.Platform.Flash.Erase.{ErasesTo, flash_area_erase-ErasesTo}
use bm_sbc.Platform.Flash.Stream.{Piece}
use bm_sbc.Platform.Dfu.{
  PendingCalls, replaced, validate, set_pending_and_reset, dfu_restore_state, set_confirmed,
  fail_update_and_reset,
}
use bm_sbc.Platform.Dfu.Outcomes.{Finishes, set_pending_ends, set_pending-replaced}
use bm_sbc.Platform.Dfu.Restart.{SamePaths, Confirmed, GivenUp, handed_over, update_restarts}

abbrev s : Dfu
s = record {
  install_path = b'/' ∷ b'i' ∷ [];
  staging_path = b'/' ∷ b's' ∷ [];
  backup_path = b'/' ∷ b'b' ∷ [];
  marker_path = b'/' ∷ b'm' ∷ [];
  dfu_fd = some 4;
  has_argv = true;
  has_pre_exec_cb = true;
  reboot_info = 1 ∷ 2 ∷ [];
}

distinct : Distinct s
distinct = record {
  install-staging = λ e. absurd (omega (arith, ap (λ t. get_or t 1 0) e));
  install-backup = λ e. absurd (omega (arith, ap (λ t. get_or t 1 0) e));
  install-marker = λ e. absurd (omega (arith, ap (λ t. get_or t 1 0) e));
  staging-backup = λ e. absurd (omega (arith, ap (λ t. get_or t 1 0) e));
  staging-marker = λ e. absurd (omega (arith, ap (λ t. get_or t 1 0) e));
  backup-marker = λ e. absurd (omega (arith, ap (λ t. get_or t 1 0) e));
}

abbrev calls : PendingCalls
calls = record {
  image = record { opens = true; reads = 20; opens_again = true; stats = true; maps = true };
  opens_marker = true;
  writes_marker = 2;
  flushes_marker = 2;
  unlinks_marker = true;
  unlinks_backup = true;
  links = true;
  renames = true;
  execs = true;
  rolls_back = true;
}

abbrev name : List ℕ
name = b'x' ∷ []

-- A program for the architecture and the application.
abbrev header : List ℕ
header = 127 ∷ b'E' ∷ b'L' ∷ b'F' ∷ (replicate 14 0 ++ 183 ∷ 0 ∷ [])

abbrev image : List ℕ
image = header ++ (image_text ++ name)

abbrev old : List ℕ
old = 5 ∷ []

abbrev files : Files
files p =
    if same_text p s.install_path
    then some old
    else if same_text p s.staging_path
    then some image
    else none

replaces : (set_pending_and_reset calls name files s).1 ≡ replaced
unfolding validate validate_staging_elf validate_staging_marker is_elf occurs starts_with
replaces =
    (set_pending-replaced calls name files s).1 (refl, refl, refl, refl, omega arith, refl, refl)

set_pending_ends_example :
    Finishes calls name old image files s (set_pending_and_reset calls name files s)
set_pending_ends_example =
    set_pending_ends calls name old image files s distinct refl refl refl refl refl refl

same : SamePaths s s
same = record { install = refl; staging = refl; backup = refl; marker = refl }

abbrev has_magic : List ℕ → Bool
has_magic info = true

update_restarts_example :
    let found = handed_over calls name old image files s s 2 has_magic 2 in
    ((dfu_restore_state 2 has_magic true 2 found s).reboot_info
      ≡ (if leb 2 calls.flushes_marker then s.reboot_info else replicate 2 0))
    × Confirmed s image (replay (file_ops (set_confirmed true true s).1) found)
    × GivenUp s old (replay (file_ops (fail_update_and_reset true true true true found s).1) found)
update_restarts_example =
    update_restarts calls name old image files s s 2 has_magic 2 distinct refl refl refl refl
      replaces same refl refl refl (omega arith) true

abbrev pieces : List Piece
pieces =
    record { bytes = header; answer = some 20 }
    ∷ record { bytes = image_text ++ name; answer = some 14 }
    ∷ []

flash_area_erase-ErasesTo_example :
    ErasesTo (λ k. some 256) 0 0 300 old (flash_area_erase (λ k. some 256) 0 300 (some 4) old)
flash_area_erase-ErasesTo_example = flash_area_erase-ErasesTo (λ k. some 256) 0 300 4 old

-- The gateway's command has come, and the time is known.
abbrev commanded : Context
commanded = record context {
  sbc_command_received = true;
  system_time_synced = true;
  sbc_command = start_command true 2 (b'w' ∷ []) ++ (0 ∷ []);
}

stopped_first_example :
    let ran = (run_sbc_command 50 (exited 0) commanded).0 in
    StopsBoth calls name files true true true true ran (b'w' ∷ []) s (with_hook ran s)
stopped_first_example =
    stopped_first calls name files true true true true 50 true 2 (b'w' ∷ []) commanded s
      (refl, refl, refl, refl) (omega arith)
