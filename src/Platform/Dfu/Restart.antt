-- ===== src/Platform/Dfu/Restart.antt =====
-- What the new program finds, and how it goes back: src/platform/linux/platform_linux.cpp.
use Prim.Native.Nat.{min}
use bm_sbc.Prelude.{
  ℕ, ◌≡◌, ◌≤◌, ap, ◌∙◌, Bool, true, Option, none, some, List, length, leb, replicate, if◌then◌else◌,
  Bool-cases, inl, inr, take, take-length, length-take, arith,
}
use bm_sbc.Platform.Files.{Files, apply, replay}
use bm_sbc.Platform.DfuState.{Dfu, file_ops}
use bm_sbc.Platform.DfuState.Distinct.{Distinct, Apart, Distinct-Apart}
use bm_sbc.Platform.Dfu.{
  PendingCalls, replaced, set_pending_and_reset, info_or_zeros, dfu_restore_state, set_confirmed,
  fail_update_and_reset,
}
use bm_sbc.Platform.Dfu.Outcomes.{Swapped, set_pending_swaps}

-- The new process has derived the same paths.
pub record SamePaths (s t : Dfu) : Type 0 where
  pub install : t.install_path ≡ s.install_path
  pub staging : t.staging_path ≡ s.staging_path
  pub backup : t.backup_path ≡ s.backup_path
  pub marker : t.marker_path ≡ s.marker_path

module _ (size : ℕ) (has_magic : List ℕ → Bool) (reads : ℕ) (fs : Files) (t : Dfu) where
  restored :
      (bytes : List ℕ)
      → fs t.marker_path ≡ some bytes
      → (dfu_restore_state size has_magic true reads fs t).reboot_info
        ≡ info_or_zeros size has_magic (take reads (take size bytes))
  unfolding dfu_restore_state
  restored bytes e = ground (arith)

  -- The marker holds the first bytes of the information, all of them or not.
  restores :
      (info : List ℕ) (flushes : ℕ)
      → fs t.marker_path ≡ some (take (min flushes (length info)) info)
      → length info ≡ size
      → has_magic info ≡ true
      → size ≤ reads
      → (dfu_restore_state size has_magic true reads fs t).reboot_info
        ≡ (if leb size flushes then info else replicate size 0)
  restores info flushes e fits magic reads_all =
      let bytes = take (min flushes (length info)) info in
      let short : length bytes ≤ size =
        omega (arith, length-take (min flushes (length info)) info) in
      let read : take reads (take size bytes) ≡ bytes =
        take-length reads (take size bytes) (omega (arith, length-take size bytes))
        ∙ take-length size bytes short in
      restored bytes e
      ∙ (ap (info_or_zeros size has_magic) read ∙ elim (Bool-cases (leb size flushes)) [
        | inl all ↦
            let whole : bytes ≡ info =
              take-length (min flushes (length info)) info (ground (arith, all, fits)) in
            rw (whole, all) (ground (arith, fits, magic))
        | inr part ↦
            let less : length bytes ≡ flushes =
              length-take (min flushes (length info)) info ∙ ground (arith, part, fits) in
            rw part (ground (arith, less, part))
      ])

-- The files where the new program has said that it works, and where it has given up.
pub record Confirmed (s : Dfu) (new : List ℕ) (now : Files) : Type 0 where
  pub installed : now s.install_path ≡ some new
  pub unmarked : now s.marker_path ≡ none
  pub unkept : now s.backup_path ≡ none

pub record GivenUp (s : Dfu) (old : List ℕ) (now : Files) : Type 0 where
  pub installed : now s.install_path ≡ some old
  pub unmarked : now s.marker_path ≡ none

module _ (c : PendingCalls) (s t : Dfu) (old new : List ℕ) (backup : Option (List ℕ))
    (now : Files) where
  confirms :
      Apart s
      → SamePaths s t
      → Swapped c s (some old) (some new) backup now
      → Confirmed s new (replay (file_ops (set_confirmed true true t).1) now)
  unfolding set_confirmed file_ops apply replay
  confirms apart same swapped = ground arith

  gives_up :
      (execs : Bool)
      → Apart s
      → SamePaths s t
      → t.has_argv ≡ true
      → c.unlinks_backup ≡ true
      → c.links ≡ true
      → Swapped c s (some old) (some new) backup now
      → GivenUp s old (replay (file_ops (fail_update_and_reset true true true execs now t).1) now)
  unfolding fail_update_and_reset file_ops apply replay
  gives_up execs apart same argv unlinks links swapped = ground arith

module _ (c : PendingCalls) (app_name old new : List ℕ) (fs : Files) (s t : Dfu) (size : ℕ)
    (has_magic : List ℕ → Bool) (reads : ℕ) where
  -- What the new process finds.
  abbrev pub handed_over : Files
  handed_over = replay (file_ops (set_pending_and_reset c app_name fs s).2) fs

  -- An update whose process is replaced, the four paths being different ones, a stale backup being
  -- removed and the program linked. The new process, on the same paths, recovers from the marker the
  -- information on the update that the old one held, if all of it reached the file, which the old one
  -- did not test; and else it recovers zeros. If it confirms the update
  -- and the files can be removed, the new program stays, and the marker and the backup are gone. If it
  -- gives up instead, and the backup can be moved back and the marker be removed, the program before is
  -- installed again, and the marker is gone.
  pub update_restarts :
      Distinct s
      → c.unlinks_backup ≡ true
      → c.links ≡ true
      → fs s.install_path ≡ some old
      → fs s.staging_path ≡ some new
      → (set_pending_and_reset c app_name fs s).1 ≡ replaced
      → SamePaths s t
      → t.has_argv ≡ true
      → length s.reboot_info ≡ size
      → has_magic s.reboot_info ≡ true
      → size ≤ reads
      → (execs : Bool)
      → ((dfu_restore_state size has_magic true reads handed_over t).reboot_info
          ≡ (if leb size c.flushes_marker then s.reboot_info else replicate size 0))
        × Confirmed s new (replay (file_ops (set_confirmed true true t).1) handed_over)
        × GivenUp s old (
            replay
              (file_ops (fail_update_and_reset true true true execs handed_over t).1)
              handed_over)
  update_restarts distinct unlinks links is_old is_new done same argv fits magic reads_all execs =
      let swapped = set_pending_swaps c app_name old new fs s distinct is_old is_new done in
      let apart = Distinct-Apart distinct in
      (
        restores size has_magic reads handed_over t s.reboot_info c.flushes_marker
            (ap handed_over same.marker ∙ swapped.marked) fits magic reads_all,
        confirms c s t old new (fs s.backup_path) handed_over apart same swapped,
        gives_up c s t old new (fs s.backup_path) handed_over execs apart same argv unlinks links
            swapped,
      )
