-- ===== src/Platform/Flash.antt =====
-- The staging file as the flash area that an update is received into:
-- src/platform/linux/platform_linux.cpp. `pwrite` answers with the bytes that it wrote, `none` for -1.
pub mod Erase
pub mod Stream
use Prim.Native.Nat.{min}
use bm_sbc.Prelude.{
  ℕ, zero, suc, ◌+◌, ◌-◌, ◌*◌, Bool, false, not, Option, none, some, List, [], ◌∷◌, ◌++◌, ltb, ◌==◌,
  if◌then◌else◌, length, take, replicate, is_empty,
}
use bm_sbc.Net.Errors.{BmErr, bm_ok, bm_einval, bm_eio, bm_eperm}
use bm_sbc.Platform.Files.{put, splice}
use bm_sbc.Platform.DfuState.{Dfu, DfuEvent, on_files, close_fd}

abbrev pub close_old : Option ℕ → List DfuEvent
close_old none = []
close_old (some fd) = close_fd fd ∷ []

abbrev pub emptied : Dfu → Option ℕ → BmErr × List DfuEvent
emptied s none = (bm_eio, [])
emptied s (some fd) = (bm_ok, on_files (put s.staging_path []) ∷ [])

-- `bm_dfu_client_flash_area_open`: `wanted` is whether there is a place for the handle, `opened` what
-- `open` returns.
unfoldable pub flash_area_open : Bool → Option ℕ → Dfu → Dfu × BmErr × List DfuEvent
flash_area_open wanted opened s =
    if not wanted
    then (s, bm_einval, [])
    else if is_empty s.staging_path
    then (s, bm_eperm, [])
    else let (err, events) = emptied s opened in
      (record s { dfu_fd = opened }, err, close_old s.dfu_fd ++ events)

-- `bm_dfu_client_flash_area_close`.
pub flash_area_close : Dfu → Dfu × BmErr × List DfuEvent
flash_area_close s = (record s { dfu_fd = none }, bm_ok, close_old s.dfu_fd)

abbrev pub written : Option ℕ → ℕ
written none = 0
written (some n) = n

abbrev pub wrote_all : Option ℕ → ℕ → Bool
wrote_all none len = false
wrote_all (some n) len = n == len

-- `pwrite` on the contents of the open file.
unfoldable pub pwrite : Option ℕ → ℕ → List ℕ → List ℕ → List ℕ
pwrite answer off src image = splice off (take (min (written answer) (length src)) src) image

abbrev pub err_of : Bool → BmErr
err_of ok = if ok then bm_ok else bm_eio

-- `bm_dfu_client_flash_area_write`, on the contents of the staging file.
unfoldable pub flash_area_write : Option ℕ → ℕ → List ℕ → Option ℕ → List ℕ → BmErr × List ℕ
flash_area_write answer off src none image = (bm_eio, image)
flash_area_write answer off src (some fd) image =
    (err_of (wrote_all answer (length src)), pwrite answer off src image)

-- The loop of `bm_dfu_client_flash_area_erase`: `answers` is what `pwrite` returns in each round. `none`
-- means that the fuel ran out.
pub erase_loop : ℕ → (ℕ → Option ℕ) → ℕ → ℕ → ℕ → List ℕ → Option (BmErr × List ℕ)
erase_loop zero answers round cur remaining image = none
erase_loop (suc fuel) answers round cur remaining image =
    let chunk = if ltb remaining 256 then remaining else 256 in
    let image' = pwrite (answers round) cur (replicate chunk 0) image in
    let rest = erase_loop fuel answers (suc round) (cur + chunk) (remaining - chunk) image' in
    if remaining == 0
    then some (bm_ok, image)
    else if not (wrote_all (answers round) chunk)
    then some (bm_eio, image')
    else rest

-- `bm_dfu_client_flash_area_erase`.
pub flash_area_erase : (ℕ → Option ℕ) → ℕ → ℕ → Option ℕ → List ℕ → Option (BmErr × List ℕ)
flash_area_erase answers off len none image = some (bm_eio, image)
flash_area_erase answers off len (some fd) image = erase_loop (len + 1) answers 0 off len image

-- `bm_dfu_client_flash_area_get_size`.
abbrev pub flash_area_size : ℕ
flash_area_size = 256 * 1024 * 1024
