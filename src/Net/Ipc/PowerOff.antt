-- ===== src/Net/Ipc/PowerOff.antt =====
-- The task of src/net/gateway_ipc.cpp that asks the bus to cut the power: it waits for a service to
-- finish, then sends requests until one is answered.
pub mod Retries
use bm_sbc.Prelude.{
  ℕ, zero, suc, ◌+◌, ◌-◌, ◌*◌, Bool, true, false, Option, none, some, List, [], ◌∷◌, ◌++◌, ltb, leb,
  ◌==◌, ◌||◌, ◌&&◌, if◌then◌else◌, length, take, c_string, same_text,
}
use bm_sbc.Net.VirtualPort.SockPath.{hex_digits}

-- `request_retry_max`.
abbrev pub request_retry_max : ℕ
request_retry_max = 30

-- What changes in `power_off_task`.
pub record PowerOffTask : Type 0 where
  pub handle : Option ℕ
  pub queue : Option ℕ
  pub request_retry : ℕ

abbrev pub idle : PowerOffTask
idle = record { handle = none; queue = none; request_retry = 0 }

abbrev pub is_set : Option ℕ → Bool
is_set none = false
is_set (some x) = true

-- `handle_replay_caught_up`: the state, and whether a task was created. `queue` is what
-- `bm_queue_create` returns, `handle` the handle of the task after `bm_task_create`.
pub handle_replay_caught_up : Option ℕ → Option ℕ → PowerOffTask → PowerOffTask × Bool
handle_replay_caught_up queue handle t =
    if is_set t.queue || is_set t.handle
    then (t, false)
    else (record { handle = handle; queue = queue; request_retry = 0 }, true)

-- `cleanup_power_off_task`.
pub cleanup_power_off_task : PowerOffTask → PowerOffTask
cleanup_power_off_task t = record t { queue = none; handle = none }

abbrev pub active_text : List ℕ
active_text = b'a' ∷ b'c' ∷ b't' ∷ b'i' ∷ b'v' ∷ b'e' ∷ []

-- The part of a string before a newline.
pub first_line : List ℕ → List ℕ
first_line [] = []
first_line (c ∷ cs) = let rest = first_line cs in if c == b'\n' then [] else c ∷ rest

-- `run_command_get_output` into a buffer of 128 bytes: `none` where nothing can be read.
pub run_command_get_output : Option (List ℕ) → List ℕ → List ℕ
run_command_get_output none buf = buf
run_command_get_output (some output) buf = c_string (first_line (take 127 output))

-- `strchr(buf, '=')`, and what follows it.
pub after_eq : List ℕ → Option (List ℕ)
after_eq [] = none
after_eq (c ∷ cs) = let rest = after_eq cs in if c == b'=' then some cs else rest

pub digits_value : ℕ → List ℕ → ℕ
digits_value n [] = n
digits_value n (c ∷ cs) =
    let rest = digits_value (10 * n + (c - b'0')) cs in if leb b'0' c && leb c b'9' then rest else n

abbrev pub after_sign : List ℕ → List ℕ
after_sign [] = []
after_sign (c ∷ cs) = if c == b'-' || c == b'+' then cs else c ∷ cs

-- `atoi`, without the sign, since the result is only compared with 0.
pub atoi : List ℕ → ℕ
atoi [] = 0
atoi (c ∷ cs) =
    let rest = atoi cs in
    if c == b' ' || (leb 9 c && leb c 13) then rest else digits_value 0 (after_sign (c ∷ cs))

-- What the two commands of a round print.
pub record Round : Type 0 where
  pub is_active : Option (List ℕ)
  pub status : Option (List ℕ)

abbrev pub exit_code : Option (List ℕ) → ℕ → ℕ
exit_code none exited_code = exited_code
exit_code (some cs) exited_code = atoi cs

-- One round of the loop: the value of `exited_code` after it.
pub round : ℕ → Round → ℕ
round exited_code r =
    let active = run_command_get_output r.is_active [] in
    if same_text active active_text
    then exited_code
    else exit_code (after_eq (run_command_get_output r.status active)) exited_code

-- `wait_for_hydrotwin`: the rounds it takes, or `none` while it still waits.
pub wait_loop : ℕ → List Round → Option ℕ
wait_loop exited_code [] = if exited_code == 0 then some 0 else none
wait_loop exited_code (r ∷ rs) =
    if exited_code == 0
    then some 0
    else elim (wait_loop (round exited_code r) rs) [ none ↦ none | some n ↦ some (suc n) ]

-- How a request ends: `bm_service_request` fails, `bm_queue_receive` fails, or there is a reply, with
-- its acknowledgement and what `system("systemctl poweroff")` would return.
pub data Attempt : Type 0 where
  request_failed receive_failed : Attempt
  replied : Bool → ℕ → Attempt

pub data PowerEvent : Type 0 where
  request poweroff : PowerEvent

abbrev pub conclude : Attempt → ℕ → ℕ × List PowerEvent → ℕ × List PowerEvent
conclude request_failed retry later = (retry, request ∷ [])
conclude receive_failed retry later = (retry, request ∷ [])
conclude (replied true zero) retry later = (retry, request ∷ poweroff ∷ [])
conclude (replied true (suc rc)) retry later = (later.0, request ∷ poweroff ∷ later.1)
conclude (replied false rc) retry later = (later.0, request ∷ later.1)

-- `while (request_retry <= request_retry_max)`, on fuel: the final count, and the calls.
pub request_loop : (ℕ → Attempt) → ℕ → ℕ → ℕ × List PowerEvent
request_loop attempt zero retry = (retry, [])
request_loop attempt (suc fuel) retry =
    let later = request_loop attempt fuel (retry + 1) in
    if leb retry request_retry_max then conclude (attempt retry) retry later else (retry, [])

abbrev pub poweroff_start : List ℕ
poweroff_start = b'b' ∷ b'o' ∷ b'r' ∷ b'e' ∷ b'a' ∷ b'l' ∷ b'i' ∷ b's' ∷ b'/' ∷ []

abbrev pub poweroff_end : List ℕ
poweroff_end = b'/' ∷ b'p' ∷ b'o' ∷ b'w' ∷ b'e' ∷ b'r' ∷ b'o' ∷ b'f' ∷ b'f' ∷ []

-- The name of the service, as `snprintf` would write it.
pub poweroff_service : ℕ → List ℕ
poweroff_service node_id = poweroff_start ++ (hex_digits 16 node_id ++ poweroff_end)

abbrev pub after_wait :
    (ℕ → Attempt) → Option ℕ → PowerOffTask → Option (PowerOffTask × List PowerEvent × Bool)
after_wait attempt none t = none
after_wait attempt (some rounds) t =
    let (retry, events) = request_loop attempt (request_retry_max + 2) t.request_retry in
    some (
      cleanup_power_off_task (record t { request_retry = retry }),
      events,
      ltb request_retry_max retry,
    )

-- `request_power_off`: the state, the calls and whether it says that it gave up; `none` while it
-- waits for the service.
pub request_power_off :
    ℕ → List Round → (ℕ → Attempt) → PowerOffTask → Option (PowerOffTask × List PowerEvent × Bool)
request_power_off node_id rounds attempt t =
    if leb 64 (length (poweroff_service node_id))
    then some (cleanup_power_off_task t, [], false)
    else after_wait attempt (wait_loop 1 rounds) t
