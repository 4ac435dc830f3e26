-- ===== src/App/Configs.antt =====
-- apps/gateway/app_main.cpp: `get_mote_system_configs`, whole. The service calls the callback once for
-- each request, with a reply or without.
pub mod Retrieved
use bm_sbc.Prelude.{
  ℕ, zero, suc, Bool, true, false, Option, some, List, [], ◌++◌, leb, if◌then◌else◌,
}
use bm_sbc.Platform.Files.{Files, FileOp, replay}
use bm_sbc.App.Requests.{service_timeout, wait_for_reply, got}
use bm_sbc.App.InitLog.{
  Paths, WriteCalls, Outcome, returned, thrown, MapReply, config_map_reply_cb, restore_backup, Copy,
}

-- The call of the callback: when, in milliseconds from the request, with what reply, and what the calls
-- in it return.
pub record Answer : Type 0 where
  pub after : ℕ
  pub calls : WriteCalls
  pub reply : Option MapReply

abbrev pub prepend : List FileOp → Outcome × List FileOp → Outcome × List FileOp
prepend front (outcome, ops) = (outcome, front ++ ops)

-- What follows on a callback: `wait_for_config_map_reply` sees the flag, or the loop goes on.
abbrev pub after_callback :
    ℕ → Outcome × List FileOp → Outcome × List FileOp → Outcome × List FileOp
after_callback after (returned true, ops) rest =
    if got (some after) (wait_for_reply service_timeout (some after))
    then (returned true, ops)
    else prepend ops rest
after_callback after (returned false, ops) rest = prepend ops rest
after_callback after (thrown, ops) rest = (thrown, ops)

-- The loop, with the requests that are left and the number of the next one.
pub configs_loop : Paths → List ℕ → (ℕ → Answer) → ℕ → ℕ → Outcome × List FileOp
configs_loop p app_name answers zero attempt = (returned false, [])
configs_loop p app_name answers (suc retries_remaining) attempt =
    let a = answers attempt in
    let rest = configs_loop p app_name answers retries_remaining (suc attempt) in
    if leb a.after service_timeout
    then after_callback a.after (config_map_reply_cb a.calls p app_name a.reply) rest
    else rest

abbrev pub without_result : List FileOp → Outcome × List FileOp → Outcome × List FileOp
without_result ops (returned restored, restore) = (returned false, ops ++ restore)
without_result ops (thrown, restore) = (thrown, ops ++ restore)

abbrev pub or_restore : Copy → Paths → Files → Outcome × List FileOp → Outcome × List FileOp
or_restore copies p fs (returned true, ops) = (returned true, ops)
or_restore copies p fs (returned false, ops) =
    without_result ops (restore_backup copies p (replay ops fs))
or_restore copies p fs (thrown, ops) = (thrown, ops)

-- `get_mote_system_configs`: whether `config_map_received` is set at the end, and what is done to the
-- files. `copies` is of `restore_backup`.
pub get_mote_system_configs : Paths → List ℕ → (ℕ → Answer) → Copy → Files → Outcome × List FileOp
unfolding configs_loop
get_mote_system_configs p app_name answers copies fs =
    or_restore copies p fs (configs_loop p app_name answers 5 0)
