-- ===== src/App/Requests.antt =====
-- apps/gateway/app_main.cpp: the loops that ask the mote for something and wait for the reply, and what
-- the replies are taken for. Times are in milliseconds.
pub mod Retries
use bm_sbc.Prelude.{
  ℕ, zero, suc, ◌+◌, ◌*◌, Bool, true, false, not, Option, none, some, List, [], ◌∷◌, ltb, leb, ◌==◌,
  ◌&&◌, if◌then◌else◌, length, is_empty,
}

-- When a flag is set, counted from the start of the wait, if ever in it.
abbrev pub arrived : Option ℕ → ℕ → Bool
arrived none now = false
arrived (some at) now = leb at now

-- `wait_for_config_reply`, `wait_for_config_map_reply` and `wait_for_sys_info_reply`: the time waited.
-- `none` means that the fuel ran out.
pub wait_loop : ℕ → (timeout : ℕ) → Option ℕ → (total_awaited : ℕ) → Option ℕ
wait_loop zero timeout reply total_awaited = none
wait_loop (suc fuel) timeout reply total_awaited =
    let rest = wait_loop fuel timeout reply (total_awaited + 20) in
    if not (arrived reply total_awaited) && ltb total_awaited timeout
    then rest
    else some total_awaited

-- The timeouts: of `wait_for_config_reply`, and of the two others with CONFIG_MAP_REQUEST_TIMEOUT_S.
abbrev pub config_timeout : ℕ
config_timeout = 500

abbrev pub service_timeout : ℕ
service_timeout = 2 * 1000 + 500

abbrev pub wait_for_reply : ℕ → Option ℕ → Option ℕ
wait_for_reply timeout reply = wait_loop (timeout + 1) timeout reply 0

abbrev pub got : Option ℕ → Option ℕ → Bool
got reply none = false
got reply (some waited) = arrived reply waited

-- The loops of `get_sbc_command`, `get_wifi_enable` and `get_mote_app_name`: whether the flag is set at
-- the end, and the requests made. `replies` is when the flag is set in each wait.
pub ask : (retries : ℕ) (timeout : ℕ) → (ℕ → Option ℕ) → (attempt : ℕ) → Bool × ℕ
unfolding wait_loop
ask zero timeout replies attempt = (false, 0)
ask (suc retries) timeout replies attempt =
    let (received, requests) = ask retries timeout replies (suc attempt) in
    if got (replies attempt) (wait_for_reply timeout (replies attempt))
    then (true, 1)
    else (received, requests + 1)

abbrev pub get_sbc_command : (ℕ → Option ℕ) → Bool × ℕ
get_sbc_command replies = ask 3 config_timeout replies 0

abbrev pub get_mote_app_name : (ℕ → Option ℕ) → Bool × ℕ
get_mote_app_name replies = ask 3 service_timeout replies 0

-- The reply with the name of the mote's program; `size` is MAX_STR_LEN_BYTES of the stack. `none` is a
-- request without acknowledgement or a reply that does not decode.
pub record MoteApp : Type 0 where
  pub mote_app_name : List ℕ
  pub mote_app_name_received : Bool

-- `sys_info_reply_cb`: the state, and what is returned.
pub sys_info_reply_cb : ℕ → Option (List ℕ) → MoteApp → MoteApp × Bool
sys_info_reply_cb size none s = (s, false)
sys_info_reply_cb size (some app_name) s =
    if not (is_empty app_name) && leb (length app_name) size
    then (record { mote_app_name = app_name; mote_app_name_received = true }, true)
    else (s, s.mote_app_name_received)

-- The neighbours that one round of `await_uart_neighbor` finds: nodes and ports.
abbrev pub Neighbor : Type 0
Neighbor = ℕ × ℕ

-- `neighbor_cb` on each; a later one on the port of the serial link replaces an earlier one.
pub foreach_neighbor : (uart_port : ℕ) → List Neighbor → Option ℕ → Option ℕ
foreach_neighbor uart_port [] mote = mote
foreach_neighbor uart_port ((node, port) ∷ neighbors) mote =
    foreach_neighbor uart_port neighbors (if port == uart_port then some node else mote)

abbrev pub found_or : Option ℕ → Option ℕ → Option ℕ
found_or none later = later
found_or (some node) later = some node

-- `await_uart_neighbor`: the mote, once a round finds it; `none` as long as it waits.
pub await_uart_neighbor : (uart_port : ℕ) → List (List Neighbor) → Option ℕ
unfolding foreach_neighbor
await_uart_neighbor uart_port [] = none
await_uart_neighbor uart_port (neighbors ∷ rounds) =
    found_or (foreach_neighbor uart_port neighbors none) (await_uart_neighbor uart_port rounds)
