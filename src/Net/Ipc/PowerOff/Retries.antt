-- ===== src/Net/Ipc/PowerOff/Retries.antt =====
-- How often power-off is requested, and when.
use bm_sbc.Prelude.{
  ℕ, zero, suc, ◌+◌, ◌-◌, ◌≤◌, ◌<◌, ◌≡◌, ◌≢◌, ◌⊎◌, inl, inr, refl, ap, Bool, true, false, Option,
  none, some, List, [], ◌∷◌, ◌++◌, length-append, ◌==◌, if◌then◌else◌, length, All, ◌↔◌, arith,
}
use bm_sbc.Net.VirtualPort.SockPath.{hex_digits, length-hex_digits}
use bm_sbc.Net.Ipc.PowerOff.{
  PowerOffTask, idle, handle_replay_caught_up, cleanup_power_off_task, Round, exit_code, after_eq,
  run_command_get_output, wait_loop, round, Attempt, request_failed, receive_failed, replied,
  PowerEvent, request, poweroff, conclude, request_loop, poweroff_start, poweroff_end,
  poweroff_service, after_wait, request_power_off,
}

-- An attempt after which the loop goes on: no acknowledgement, or a command that fails.
abbrev pub goes_on : Attempt → Bool
goes_on request_failed = false
goes_on receive_failed = false
goes_on (replied true zero) = false
goes_on (replied true (suc rc)) = true
goes_on (replied false rc) = true

-- The number of requests, and of commands to power off.
abbrev pub requests : List PowerEvent → ℕ
requests [] = 0
requests (request ∷ es) = suc (requests es)
requests (poweroff ∷ es) = requests es

-- Attempt number `stop` is the first after which the loop does not go on; 31 if there is none.
abbrev pub StopsAt : (ℕ → Attempt) → ℕ → Type 0
StopsAt attempt stop =
    ((j : ℕ) → j < stop → goes_on (attempt j) ≡ true)
    × ((stop ≡ 31) ⊎ ((stop < 31) × (goes_on (attempt stop) ≡ false)))

conclude-on :
    (a : Attempt) (retry : ℕ) (later : ℕ × List PowerEvent)
    → goes_on a ≡ true
    → ((conclude a retry later).0 ≡ later.0)
      × (requests (conclude a retry later).1 ≡ suc (requests later.1))
conclude-on request_failed retry later e = cc
conclude-on receive_failed retry later e = cc
conclude-on (replied true zero) retry later e = cc
conclude-on (replied true (suc rc)) retry later e = (refl, refl)
conclude-on (replied false rc) retry later e = (refl, refl)

conclude-off :
    (a : Attempt) (retry : ℕ) (later : ℕ × List PowerEvent)
    → goes_on a ≡ false
    → ((conclude a retry later).0 ≡ retry) × (requests (conclude a retry later).1 ≡ 1)
conclude-off request_failed retry later e = (refl, refl)
conclude-off receive_failed retry later e = (refl, refl)
conclude-off (replied true zero) retry later e = (refl, refl)
conclude-off (replied true (suc rc)) retry later e = cc
conclude-off (replied false rc) retry later e = cc

-- The requests of a loop that begins at number `retry`.
abbrev expected : ℕ → ℕ → ℕ
expected stop retry = if stop == 31 then 31 - retry else suc (stop - retry)

request_loop_lem :
    (attempt : ℕ → Attempt) (stop : ℕ)
    → StopsAt attempt stop
    → (fuel retry : ℕ) → retry ≤ stop
    → 32 ≤ fuel + retry
    → ((request_loop attempt fuel retry).0 ≡ stop)
      × (requests (request_loop attempt fuel retry).1 ≡ expected stop retry)
unfolding request_loop
request_loop_lem attempt stop h zero retry l f = absurd (ground arith)
request_loop_lem attempt stop h (suc fuel) retry l f = elim (before_or_at) [
  | inl lt ↦
      let on =
        conclude-on (attempt retry) retry (request_loop attempt fuel (retry + 1)) (h.0 retry lt) in
      let later = request_loop_lem attempt stop h fuel (retry + 1) (omega arith) (omega arith) in
      ground arith
  | inr at_stop ↦
      let off = conclude-off (attempt retry) retry (request_loop attempt fuel (retry + 1)) in
      let here : attempt retry ≡ attempt stop = ap attempt at_stop in ground arith
]
  where
    before_or_at : (retry < stop) ⊎ (retry ≡ stop)
    before_or_at = ground arith

length-poweroff_service : (node_id : ℕ) → length (poweroff_service node_id) ≡ 34
unfolding poweroff_service
length-poweroff_service node_id = omega (
  arith,
  length-append poweroff_start (hex_digits 16 node_id ++ poweroff_end),
  length-append (hex_digits 16 node_id) poweroff_end,
  length-hex_digits 16 node_id,
)

-- While it waits for the service the task asks for nothing. Then it asks once for each attempt up to
-- the first that ends the loop (a failing call, or an acknowledgement after which the command to
-- power off succeeds), and 31 times if none does; it says that it gave up exactly in that case. At
-- its end it has neither queue nor handle.
pub request_power_off_lem :
    (node_id : ℕ) (rounds : List Round) (attempt : ℕ → Attempt) (t : PowerOffTask) (stop : ℕ)
    → StopsAt attempt stop
    → t.request_retry ≡ 0
    → (wait_loop 1 rounds ≡ none → request_power_off node_id rounds attempt t ≡ none)
      × ((n : ℕ)
          → wait_loop 1 rounds ≡ some n
          → (events : List PowerEvent) × (request_power_off node_id rounds attempt t
              ≡ some (
                record { handle = none; queue = none; request_retry = stop },
                events,
                stop == 31,
              ))
            × (requests events ≡ (if stop == 31 then 31 else stop + 1)))
unfolding request_power_off cleanup_power_off_task
request_power_off_lem node_id rounds attempt t stop h z =
    let whole = request_loop_lem attempt stop h 32 t.request_retry (omega arith) (omega arith) in
    let bound : stop ≤ 31 = ground arith in
    let fits = length-poweroff_service node_id in
    (
      λ e. rw (e, after_wait) (ground arith),
      λ n e. (
        (request_loop attempt 32 t.request_retry).1,
        rw (e, after_wait) (ground arith),
        ground arith,
      ),
    )

exit_code_zero :
    (o : Option (List ℕ)) (exited_code : ℕ)
    → exited_code ≢ 0
    → (exit_code o exited_code ≡ 0) ↔ (exit_code o 1 ≡ 0)
exit_code_zero none exited_code h = ground arith
exit_code_zero (some cs) exited_code h = ((λ e. e), (λ e. e))

round_zero :
    (exited_code : ℕ) (r : Round) → exited_code ≢ 0 → (round exited_code r ≡ 0) ↔ (round 1 r ≡ 0)
unfolding round
round_zero exited_code r h =
    let active = run_command_get_output r.is_active [] in
    let code = exit_code_zero (after_eq (run_command_get_output r.status active)) exited_code h in
    ground arith

wait_loop-zero : (rounds : List Round) → wait_loop 0 rounds ≡ some 0
unfolding wait_loop
wait_loop-zero [] = refl
wait_loop-zero (r ∷ rs) = refl

wait_loop-none :
    (exited_code : ℕ) (rounds : List Round)
    → exited_code ≢ 0
    → (wait_loop exited_code rounds ≡ none) ↔ All (λ r. round 1 r ≢ 0) rounds
unfolding wait_loop
wait_loop-none exited_code [] h = ground arith
wait_loop-none exited_code (r ∷ rs) h = elim zero_or_not [
  | inl z ↦ rw (z, wait_loop-zero rs) (ground (arith, round_zero exited_code r h))
  | inr n ↦
      let on = wait_loop-none (round exited_code r) rs n in
      let same = round_zero exited_code r h in ground arith
]
  where
    zero_or_not : (round exited_code r ≡ 0) ⊎ (round exited_code r ≢ 0)
    zero_or_not = ground arith

-- The wait ends exactly if in some round the service is not active and its exit status reads 0: it
-- goes on while the service is active, and also after the service has failed.
pub wait_loop_lem :
    (rounds : List Round) → (wait_loop 1 rounds ≡ none) ↔ All (λ r. round 1 r ≢ 0) rounds
wait_loop_lem rounds = wait_loop-none 1 rounds (ground arith)

-- While a task is at work a further order to power off changes nothing and starts no second task;
-- after the task has cleaned up, an order starts one again.
pub handle_replay_caught_up_once :
    (q : ℕ) (handle queue' handle' : Option ℕ)
    → let t = (handle_replay_caught_up (some q) handle idle).0 in
      (handle_replay_caught_up queue' handle' t ≡ (t, false))
      × ((handle_replay_caught_up queue' handle' (cleanup_power_off_task t)).1 ≡ true)
unfolding handle_replay_caught_up cleanup_power_off_task
handle_replay_caught_up_once q handle queue' handle' = (refl, refl)
