-- ===== src/Platform/Flash/Stream.antt =====
-- A program received in pieces: the flash area of src/platform/linux/platform_linux.cpp, and the update
-- that installs what it holds.
use bm_sbc.Prelude.{ℕ, ◌+◌, ◌≡◌, true, Option, some, List, [], ◌∷◌, ◌++◌, length}
use bm_sbc.Net.Errors.{BmErr, bm_ok, bm_einval, bm_eio, bm_enodata, bm_eperm}
use bm_sbc.Platform.Files.{Files, update, replay}
use bm_sbc.Platform.DfuState.{Dfu, file_ops}
use bm_sbc.Platform.DfuState.Distinct.{Distinct}
use bm_sbc.Platform.Dfu.{PendingCalls, replaced, set_pending_and_reset}
use bm_sbc.Platform.Dfu.Outcomes.{backup_after}
use bm_sbc.Platform.Flash.{flash_area_write, flash_area_open}

pub record Piece : Type 0 where
  pub bytes : List ℕ
  pub answer : Option ℕ  -- of `pwrite`

abbrev unless_failed : BmErr → List ℕ → BmErr × List ℕ → BmErr × List ℕ
unless_failed bm_ok image rest = rest
unless_failed bm_einval image rest = (bm_einval, image)
unless_failed bm_eio image rest = (bm_eio, image)
unless_failed bm_enodata image rest = (bm_enodata, image)
unless_failed bm_eperm image rest = (bm_eperm, image)

-- Writes one behind the other, up to the first that fails.
unfoldable pub receive : Option ℕ → ℕ → List Piece → List ℕ → BmErr × List ℕ
receive fd off [] image = (bm_ok, image)
receive fd off (p ∷ ps) image =
    let (err, image') = flash_area_write p.answer off p.bytes fd image in
    unless_failed err image' (receive fd (off + length p.bytes) ps image')

abbrev pub joined : List Piece → List ℕ
joined [] = []
joined (p ∷ ps) = p.bytes ++ joined ps

module _ (c : PendingCalls) (app_name : List ℕ) (fs : Files) (s : Dfu) (old : List ℕ) (fd : ℕ)
    (pieces : List Piece) where
  -- The staging file after the area has been opened and the pieces have been written.
  abbrev pub received : Files
  received = update s.staging_path (some (receive (some fd) 0 pieces []).1) fs

  abbrev pub opened : Dfu
  opened = (flash_area_open true (some fd) s).0

  abbrev Installs : Dfu → Type 0
  Installs o =
      (set_pending_and_reset c app_name received o).1 ≡ replaced
      → let now = replay (file_ops (set_pending_and_reset c app_name received o).2) received in
        (now s.install_path ≡ some (joined pieces))
        × (now s.backup_path ≡ backup_after c (some old) (fs s.backup_path))
