-- ===== src/App/Undo/Stopping.antt =====
-- The services that the gateway of apps/gateway/app_main.cpp has started are stopped before an update
-- replaces the process.
use mathlib.Core.Path.{subst}
use bm_sbc.Prelude.{
  ℕ, ◌+◌, ◌<◌, ◌≡◌, ◌⊎◌, inl, refl, sym, ap, if◌then◌else◌, Bool, true, false, not, Option, none,
  some, List, [], ◌∷◌, ◌++◌, ◌||◌, length, is_empty, c_string, by_if, arith,
}
use bm_sbc.Platform.Files.{Files}
use bm_sbc.Platform.DfuState.{Dfu, DfuEvent, set_pre_exec_cb}
use bm_sbc.Platform.Dfu.{
  PendingCalls, Outcome, returned, replaced, close_events, swap, write_marker, validate,
  set_pending_and_reset, fail_update_and_reset,
}
use bm_sbc.App.SbcCommand.{Context, exited, run_command, stop_text, run_sbc_command}
use bm_sbc.App.SbcCommand.Once.{start_command, register_sbc_undo_lem}
use bm_sbc.App.Undo.{sbc_undo_cb, with_hook, Restart, command, exec_call, trace}

module _ (context : Context) (services : List ℕ) where
  -- The services are stopped, then the program is restarted.
  abbrev pub stopped : Dfu → List Restart
  stopped s = command (run_command (stop_text ++ services)) ∷ exec_call s.install_path ∷ []

  abbrev pub Stops : Dfu → Outcome → List DfuEvent → Type 0
  Stops s (returned e) events = (trace context events ≡ []) ⊎ (trace context events ≡ stopped s)
  Stops s replaced events = trace context events ≡ stopped s

  module _ (undo : context.sbc_undo_command ≡ stop_text ++ services) (s : Dfu)
      (hook : s.has_pre_exec_cb ≡ true) where
    abbrev StopsIn : Outcome × List DfuEvent → Type 0
    StopsIn r = Stops s r.0 r.1

    swap-Stops : (c : PendingCalls) → StopsIn (swap c s)
    unfolding swap trace sbc_undo_cb
    swap-Stops c = ground (arith, undo, hook)

    write_marker-Stops : (c : PendingCalls) → StopsIn (write_marker c s)
    unfolding write_marker trace
    write_marker-Stops c = ground (arith, swap-Stops c)

    close-Stops :
        (fd : Option ℕ) (r : Outcome × List DfuEvent)
        → StopsIn r
        → StopsIn (r.0, close_events fd ++ r.1)
    unfolding trace
    close-Stops none r stops = stops
    close-Stops (some fd) (returned e, events) stops = stops
    close-Stops (some fd) (replaced, events) stops = stops

    set_pending-Stops :
        (c : PendingCalls) (app_name : List ℕ) (fs : Files)
        → let (now, outcome, events) = set_pending_and_reset c app_name fs s in
          Stops s outcome events
    unfolding set_pending_and_reset trace
    set_pending-Stops c app_name fs =
        by_if {A = Dfu × Outcome × List DfuEvent} (λ r. StopsIn (r.1, r.2))
          (is_empty s.staging_path || not s.has_argv) _ _ (λ _. inl refl)
          (λ _.
            by_if {A = Dfu × Outcome × List DfuEvent} (λ r. StopsIn (r.1, r.2))
              (not (validate c app_name s fs)) _ _ (λ _. inl refl)
              (λ _. close-Stops s.dfu_fd (write_marker c s) (write_marker-Stops c)))

    fail_update-Stops :
        (stats renames unlinks execs : Bool) (fs : Files)
        → StopsIn (fail_update_and_reset stats renames unlinks execs fs s)
    unfolding fail_update_and_reset trace sbc_undo_cb
    fail_update-Stops stats renames unlinks execs fs = ground (arith, undo, hook)

-- The command is there, the time is known, and it has not been run.
abbrev pub Ready : List ℕ → Context → Type 0
Ready cmd context =
    (context.system_time_synced ≡ true)
    × (context.sbc_command_ran ≡ false)
    × (context.sbc_command_received ≡ true)
    × (c_string context.sbc_command ≡ cmd)

started_lem :
    (size : ℕ) (with_exec : Bool) (blanks : ℕ) (services : List ℕ) (context : Context)
    → Ready (start_command with_exec blanks services) context
    → length services + 15 < size
    → let ran = (run_sbc_command size (exited 0) context).0 in
      (ran.sbc_undo_command ≡ stop_text ++ services) × (ran.pre_exec_cb ≡ true)
unfolding run_sbc_command
started_lem size with_exec blanks services context (synced, fresh, received, cmd) fits =
    let ran : Context = record context {
      system_time_synced = true;
      sbc_command_received = true;
      sbc_command_ran = true;
    } in
    let undone = register_sbc_undo_lem size with_exec blanks services ran fits in
    rw (synced, fresh, received, cmd)
      (ap (λ u. u.sbc_undo_command) undone, ap (λ u. u.pre_exec_cb) undone)

module _ (c : PendingCalls) (app_name : List ℕ) (fs : Files)
    (stats renames unlinks execs : Bool) where
  -- What an update to a new program, and one back to the program before, do with the services.
  abbrev pub StopsBoth : Context → List ℕ → Dfu → Dfu → Type 0
  StopsBoth ran services s s' =
      let (now, outcome, events) = set_pending_and_reset c app_name fs s' in
      let (outcome', events') = fail_update_and_reset stats renames unlinks execs fs s' in
      Stops ran services s outcome events × Stops ran services s outcome' events'

  -- A command "systemctl start" with some services, also behind "exec " and any number of blanks, with
  -- services short enough for the command that undoes it, is run for the first time and exits with 0.
  -- Then an update that replaces the process, to install a new program or to go back to the one
  -- before, first stops those services, and then restarts the program, each once. An update that
  -- returns has done neither, or both, where it is `execv` that failed.
  pub stopped_first :
      (size : ℕ) (with_exec : Bool) (blanks : ℕ) (services : List ℕ) (context : Context) (s : Dfu)
      → Ready (start_command with_exec blanks services) context
      → length services + 15 < size
      → let ran = (run_sbc_command size (exited 0) context).0 in
        StopsBoth ran services s (with_hook ran s)
  unfolding set_pre_exec_cb
  stopped_first size with_exec blanks services context s ready fits =
      let ran = (run_sbc_command size (exited 0) context).0 in
      let (undo, hook) = started_lem size with_exec blanks services context ready fits in
      subst (StopsBoth ran services s) (sym (ap (λ b. if b then set_pre_exec_cb s else s) hook)) (
        set_pending-Stops ran services undo (set_pre_exec_cb s) refl c app_name fs,
        fail_update-Stops ran services undo (set_pre_exec_cb s) refl stats renames unlinks execs fs,
      )
