-- ===== src/Platform/Dfu/Atomic.antt =====
-- At whatever moment the power fails, a whole program is installed: `bm_dfu_client_set_pending_and_reset`
-- of src/platform/linux/platform_linux.cpp.
use bm_sbc.Prelude.{ℕ, ◌≡◌, ◌⊎◌, refl, Bool, true, false, not, Option, none, some, List, [], ◌++◌}
use bm_sbc.Platform.Files.{FilePath, Files, put, apply, Always}
use bm_sbc.Platform.DfuState.{Dfu, DfuEvent, file_ops}
use bm_sbc.Platform.DfuState.Distinct.{Distinct}
use bm_sbc.Platform.Dfu.{PendingCalls, Outcome, close_events, validate}

-- The program that is installed is the old one or the new one, and the latter passed the tests.
abbrev pub Whole : FilePath → Option (List ℕ) → Option (List ℕ) → Bool → Files → Type 0
Whole install old new valid now = (now install ≡ old) ⊎ ((now install ≡ new) × (valid ≡ true))

module _ (c : PendingCalls) (s : Dfu) (fs : Files) where
  abbrev AlwaysWhole : Outcome × List DfuEvent → Type 0
  AlwaysWhole r =
      Always (Whole s.install_path (fs s.install_path) (fs s.staging_path) true) (file_ops r.1) fs

  -- What the files are while the marker is written.
  abbrev with_marker : List ℕ → Files
  with_marker bytes = apply (put s.marker_path bytes) (apply (put s.marker_path []) fs)

pub not-false : (b : Bool) → not b ≡ false → b ≡ true
not-false true e = refl
not-false false e = cc

pub file_ops-close :
    (fd : Option ℕ) (events : List DfuEvent)
    → file_ops (close_events fd ++ events) ≡ file_ops events
unfolding file_ops
file_ops-close none events = refl
file_ops-close (some fd) events = refl

module _ (c : PendingCalls) (app_name : List ℕ) (fs : Files) (s : Dfu) where
  abbrev pub Installed : Dfu × Outcome × List DfuEvent → Type 0
  Installed r =
      Always
        (Whole s.install_path (fs s.install_path) (fs s.staging_path) (validate c app_name s fs))
        (file_ops r.2) fs
