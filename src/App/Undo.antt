-- ===== src/App/Undo.antt =====
-- apps/gateway/app_main.cpp with src/platform/linux/platform_linux.cpp: the hook that undoes the
-- gateway's command when an update restarts the process.
pub mod Stopping
use bm_sbc.Prelude.{List, [], ◌∷◌, ◌++◌, if◌then◌else◌, is_empty}
use bm_sbc.Platform.Files.{FilePath}
use bm_sbc.Platform.DfuState.{
  Dfu, DfuEvent, on_files, sync_fd, close_fd, run_pre_exec, log_shutdown, close_all, exec,
  set_pre_exec_cb,
}
use bm_sbc.App.SbcCommand.{Context, AppEvent, run_command}

-- `sbc_undo_cb`.
unfoldable pub sbc_undo_cb : Context → List AppEvent
sbc_undo_cb s = if is_empty s.sbc_undo_command then [] else run_command s.sbc_undo_command ∷ []

-- `bm_sbc_runtime_set_pre_exec_cb`, where `register_sbc_undo` has called it.
abbrev pub with_hook : Context → Dfu → Dfu
with_hook context s = if context.pre_exec_cb then set_pre_exec_cb s else s

-- What the hook runs in the course of the calls of an update, and the calls of `execv`.
pub data Restart : Type 0 where
  command : AppEvent → Restart
  exec_call : FilePath → Restart

abbrev pub commands_then : List AppEvent → List Restart → List Restart
commands_then [] rest = rest
commands_then (e ∷ events) rest = command e ∷ commands_then events rest

unfoldable pub trace : Context → List DfuEvent → List Restart
unfolding sbc_undo_cb
trace context [] = []
trace context (run_pre_exec ∷ events) = commands_then (sbc_undo_cb context) (trace context events)
trace context (exec p ∷ events) = exec_call p ∷ trace context events
trace context (on_files op ∷ events) = trace context events
trace context (sync_fd fd ∷ events) = trace context events
trace context (close_fd fd ∷ events) = trace context events
trace context (log_shutdown ∷ events) = trace context events
trace context (close_all ∷ events) = trace context events
