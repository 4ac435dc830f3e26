-- ===== src/Platform/Dfu/Outcomes.antt =====
-- What an update leaves behind: `bm_dfu_client_set_pending_and_reset` of
-- src/platform/linux/platform_linux.cpp.
use Prim.Native.Nat.{min}
use bm_sbc.Prelude.{
  ℕ, ◌≡◌, ◌≤◌, ◌⊎◌, ◌↔◌, inl, refl, ap, ==_iff, true, false, not, Option, none, some, List, [],
  ◌==◌, ◌||◌, ◌&&◌, if◌then◌else◌, length, take, is_empty, by_if, arith,
}
use bm_sbc.Platform.Files.{Files, put, apply, replay, exists}
use bm_sbc.Platform.DfuState.{Dfu, DfuEvent, file_ops}
use bm_sbc.Platform.DfuState.Distinct.{Distinct, Apart, Distinct-Apart}
use bm_sbc.Platform.Dfu.{
  PendingCalls, Outcome, returned, replaced, swap, write_marker, validate, set_pending_and_reset,
}
use bm_sbc.Platform.Dfu.Atomic.{file_ops-close, not-false}

-- What the backup is after the stale one has been removed and the new one linked, each if it succeeds:
-- `old` is the program, `before` the stale backup.
abbrev pub backup_after : PendingCalls → (old before : Option (List ℕ)) → Option (List ℕ)
backup_after c old before =
    let left = if c.unlinks_backup then none else before in
    if c.links && not (exists left) then old else left

-- The files where the call has not returned: `old` is the program before, `new` the staging file.
pub record Swapped (c : PendingCalls) (s : Dfu) (old new backup : Option (List ℕ)) (now : Files)
    : Type 0 where
  pub installed : now s.install_path ≡ new
  pub staged : now s.staging_path ≡ none
  pub kept : now s.backup_path ≡ backup_after c old backup
  pub marked :
      now s.marker_path ≡ some (take (min c.flushes_marker (length s.reboot_info)) s.reboot_info)

-- The files where it has returned an error.
pub record Restored (s : Dfu) (old marker : Option (List ℕ)) (now : Files) : Type 0 where
  pub installed : now s.install_path ≡ old
  pub unmarked : (now s.marker_path ≡ marker) ⊎ (now s.marker_path ≡ none)

abbrev IfReplaced : Type 0 → Outcome → Type 0
IfReplaced A (returned e) = Unit
IfReplaced A replaced = A

abbrev IfReturned : Type 0 → Outcome → Type 0
IfReturned A (returned e) = A
IfReturned A replaced = Unit

replaced_then : {A : Type 0} (outcome : Outcome) → outcome ≡ replaced → IfReplaced A outcome → A
replaced_then (returned e) is h = cc
replaced_then replaced is h = h

abbrev pub Ends :
    PendingCalls → Dfu → (old new backup marker : Option (List ℕ)) → Outcome → Files → Type 0
Ends c s old new backup marker (returned e) now = Restored s old marker now
Ends c s old new backup marker replaced now = Swapped c s old new backup now

both :
    (c : PendingCalls) (s : Dfu) (old new backup marker : Option (List ℕ)) (outcome : Outcome)
    (now : Files)
    → IfReplaced (Swapped c s old new backup now) outcome
    → IfReturned (Restored s old marker now) outcome
    → Ends c s old new backup marker outcome now
both c s old new backup marker (returned e) now swapped restored = restored
both c s old new backup marker replaced now swapped restored = swapped

module _ (c : PendingCalls) (s : Dfu) (old new : List ℕ) (backup : Option (List ℕ))
    (fs : Files) where
  abbrev SwappedBy : Outcome × List DfuEvent → Type 0
  SwappedBy r = IfReplaced (Swapped c s (some old) (some new) backup (replay (file_ops r.1) fs)) r.0

  swap-Swapped :
      Apart s
      → fs s.install_path ≡ some old
      → fs s.staging_path ≡ some new
      → fs s.backup_path ≡ backup
      → fs s.marker_path ≡ some (take (min c.flushes_marker (length s.reboot_info)) s.reboot_info)
      → SwappedBy (swap c s)
  unfolding swap file_ops apply replay
  swap-Swapped apart is_old is_new was marked = ground arith

module _ (c : PendingCalls) (s : Dfu) (old new : List ℕ) (marker : Option (List ℕ))
    (fs : Files) where
  abbrev RestoredBy : Outcome × List DfuEvent → Type 0
  RestoredBy r = IfReturned (Restored s (some old) marker (replay (file_ops r.1) fs)) r.0

  swap-Restored :
      Apart s
      → c.unlinks_backup ≡ true
      → c.links ≡ true
      → c.rolls_back ≡ true
      → c.unlinks_marker ≡ true
      → fs s.install_path ≡ some old
      → fs s.staging_path ≡ some new
      → RestoredBy (swap c s)
  unfolding swap file_ops apply replay
  swap-Restored apart unlinks links back unlinks_marker is_old is_new = ground arith

module _ (c : PendingCalls) (s : Dfu) (old new : List ℕ) (fs : Files) where
  -- The files while the marker is written.
  abbrev with_marker : ℕ → Files
  with_marker written =
      apply (put s.marker_path (take written s.reboot_info)) (apply (put s.marker_path []) fs)

  abbrev flushed : ℕ
  flushed = min c.flushes_marker (min c.writes_marker (length s.reboot_info))

  write_marker-Swapped :
      Apart s
      → fs s.install_path ≡ some old
      → fs s.staging_path ≡ some new
      → SwappedBy c s old new (fs s.backup_path) fs (write_marker c s)
  unfolding write_marker file_ops apply replay
  write_marker-Swapped apart is_old is_new =
      let written = min c.writes_marker (length s.reboot_info) in
      by_if (SwappedBy c s old new (fs s.backup_path) fs) (not c.opens_marker) _ _ (λ _. tt)
        (λ _.
          by_if (SwappedBy c s old new (fs s.backup_path) fs)
            (not (written == length s.reboot_info)) _ _ (λ _. tt)
            (λ whole.
              swap-Swapped c s old new (fs s.backup_path) (with_marker flushed) apart (ground arith)
                (ground arith) (ground arith)
                (ground (
                  arith,
                  ap (λ n. take (min c.flushes_marker n) s.reboot_info)
                      ((==_iff _ _).0 (not-false _ whole)),
                ))))

  write_marker-Restored :
      Apart s
      → c.unlinks_backup ≡ true
      → c.links ≡ true
      → c.rolls_back ≡ true
      → c.unlinks_marker ≡ true
      → fs s.install_path ≡ some old
      → fs s.staging_path ≡ some new
      → RestoredBy c s old new (fs s.marker_path) fs (write_marker c s)
  unfolding write_marker file_ops apply replay
  write_marker-Restored apart unlinks links back unlinks_marker is_old is_new =
      let written = min c.writes_marker (length s.reboot_info) in
      by_if (RestoredBy c s old new (fs s.marker_path) fs) (not c.opens_marker) _ _
        (λ _. record { installed = is_old; unmarked = inl refl })
        (λ _.
          by_if (RestoredBy c s old new (fs s.marker_path) fs)
            (not (written == length s.reboot_info)) _ _ (λ _. ground arith)
            (λ whole.
              swap-Restored c s old new (fs s.marker_path) (with_marker flushed) apart unlinks links
                back unlinks_marker (ground arith) (ground arith)))

module _ (c : PendingCalls) (app_name old new : List ℕ) (fs : Files) (s : Dfu) where
  abbrev pub Leaves : Dfu × Outcome × List DfuEvent → Files
  Leaves r = replay (file_ops r.2) fs

  abbrev SwappedIn : Dfu × Outcome × List DfuEvent → Type 0
  SwappedIn r = IfReplaced (Swapped c s (some old) (some new) (fs s.backup_path) (Leaves r)) r.1

  abbrev RestoredIn : Dfu × Outcome × List DfuEvent → Type 0
  RestoredIn r = IfReturned (Restored s (some old) (fs s.marker_path) (Leaves r)) r.1

  -- A call that does not return.
  set_pending-Swapped :
      Distinct s
      → fs s.install_path ≡ some old
      → fs s.staging_path ≡ some new
      → SwappedIn (set_pending_and_reset c app_name fs s)
  unfolding set_pending_and_reset file_ops replay
  set_pending-Swapped distinct is_old is_new =
      by_if SwappedIn (is_empty s.staging_path || not s.has_argv) _ _ (λ _. tt)
        (λ _.
          by_if SwappedIn (not (validate c app_name s fs)) _ _ (λ _. tt)
            (λ _.
              rw (file_ops-close s.dfu_fd (write_marker c s).1)
                (write_marker-Swapped c s old new fs (Distinct-Apart distinct) is_old is_new)))

  pub set_pending_swaps :
      Distinct s
      → fs s.install_path ≡ some old
      → fs s.staging_path ≡ some new
      → (set_pending_and_reset c app_name fs s).1 ≡ replaced
      → Swapped c s
          (some old)
          (some new)
          (fs s.backup_path)
          (Leaves (set_pending_and_reset c app_name fs s))
  set_pending_swaps distinct is_old is_new done =
      replaced_then (set_pending_and_reset c app_name fs s).1 done
        (set_pending-Swapped distinct is_old is_new)

  -- A call that returns.
  set_pending-Restored :
      Distinct s
      → c.unlinks_backup ≡ true
      → c.links ≡ true
      → c.rolls_back ≡ true
      → c.unlinks_marker ≡ true
      → fs s.install_path ≡ some old
      → fs s.staging_path ≡ some new
      → RestoredIn (set_pending_and_reset c app_name fs s)
  unfolding set_pending_and_reset file_ops replay
  set_pending-Restored distinct unlinks links back unlinks_marker is_old is_new =
      by_if RestoredIn (is_empty s.staging_path || not s.has_argv) _ _
        (λ _. record { installed = is_old; unmarked = inl refl })
        (λ _.
          by_if RestoredIn (not (validate c app_name s fs)) _ _
            (λ _. record { installed = is_old; unmarked = inl refl })
            (λ _. rw (file_ops-close s.dfu_fd (write_marker c s).1) (
              write_marker-Restored c s old new fs (Distinct-Apart distinct) unlinks links back
                unlinks_marker is_old is_new)))

  abbrev pub Finishes : Dfu × Outcome × List DfuEvent → Type 0
  Finishes r = Ends c s (some old) (some new) (fs s.backup_path) (fs s.marker_path) r.1 (Leaves r)

  -- The four paths being different ones, with programs at the first two. Where the process is
  -- replaced, the path of the program names the staging file, no staging file is left, the backup is
  -- the program before, as far as a stale one could be removed and the program linked, and the marker
  -- holds as much of the information on the update as reached the file, which the call does not test.
  -- Where the call returns, whatever the error, the path of the program names the program before, and
  -- the marker is as it was or gone; this as far as the backup is renewed, a rename can be undone, and
  -- the marker be removed.
  pub set_pending_ends :
      Distinct s
      → c.unlinks_backup ≡ true
      → c.links ≡ true
      → c.rolls_back ≡ true
      → c.unlinks_marker ≡ true
      → fs s.install_path ≡ some old
      → fs s.staging_path ≡ some new
      → Finishes (set_pending_and_reset c app_name fs s)
  set_pending_ends distinct unlinks links back unlinks_marker is_old is_new =
      both c s (some old) (some new) (fs s.backup_path) (fs s.marker_path) _ _
        (set_pending-Swapped distinct is_old is_new)
        (set_pending-Restored distinct unlinks links back unlinks_marker is_old is_new)

-- The process is replaced exactly if the update is prepared, the staging file passes the tests, the
-- marker is written whole, and the swap and `execv` succeed.
pub set_pending-replaced :
    (c : PendingCalls) (app_name : List ℕ) (fs : Files) (s : Dfu)
    → ((set_pending_and_reset c app_name fs s).1 ≡ replaced) ↔ (
        (is_empty s.staging_path ≡ false)
        × (s.has_argv ≡ true)
        × (validate c app_name s fs ≡ true)
        × (c.opens_marker ≡ true)
        × (length s.reboot_info ≤ c.writes_marker)
        × (c.renames ≡ true)
        × (c.execs ≡ true))
unfolding set_pending_and_reset write_marker swap
set_pending-replaced c app_name fs s = ground arith
