-- ===== src/Examples/Starting.antt =====
-- The start of a node: src/core/runtime.cpp.
use bm_sbc.Prelude.{ℕ, zero, suc, ◌≡◌, refl, true, false, List, [], ◌∷◌, ◌||◌, if◌then◌else◌}
use bm_sbc.Core.Variables.{Settings, defaults}
use bm_sbc.Core.Startup.{Call, stack, l2_init, Answers, gateway_mode, start}
use bm_sbc.Core.Startup.Order.{
  ErrCheckLaws, first_error, until_error, stack_calls, restored_first, plan, bad_uart, bad_pcap,
  start_lem,
}

-- As `bm_err_check` of the stack.
abbrev err_check : ℕ → ℕ × List Call → ℕ × List Call
err_check zero r = r
err_check (suc e) r = (suc e, [])

laws : ErrCheckLaws err_check
laws = record { runs = λ r. refl; skips = λ e r. refl }

-- The third layer fails.
abbrev answers : Answers
answers = record {
  is_tty = false;
  device_name = b'n' ∷ [];
  version_tag = b'v' ∷ [];
  uart_ok = true;
  pcap_ok = true;
  num_ports = 15;
  l2 = 0;
  timer = 0;
  ip = 5;
  bcmp = 0;
  topology = 0;
  service = 0;
  pubsub = 0;
  middleware = 0;
}

abbrev gateway : Settings
gateway = record defaults { uart_path = b'/' ∷ b't' ∷ []; pcap_path = b'/' ∷ b'p' ∷ [] }

start_lem_example :
    let (code, calls) = start err_check (b'a' ∷ []) answers gateway in
    (code ≡ (
      if bad_uart err_check laws answers gateway || bad_pcap err_check laws answers gateway
      then 1
      else first_error (plan answers gateway)))
    × (stack_calls calls ≡ (
        if bad_uart err_check laws answers gateway
        then []
        else if bad_pcap err_check laws answers gateway
        then stack (l2_init (gateway_mode gateway)) ∷ []
        else until_error (plan answers gateway)))
    × (restored_first calls ≡ true)
start_lem_example = start_lem err_check laws answers gateway (b'a' ∷ [])
