-- ===== src/Core/Startup/Order.antt =====
-- The order of the start, and what a failure in it stops: src/core/runtime.cpp.
use bm_sbc.Prelude.{
  ℕ, zero, suc, ◌≡◌, refl, Bool, true, false, not, List, [], ◌∷◌, ◌++◌, ◌&&◌, ◌||◌, if◌then◌else◌,
  is_empty, arith,
}
use bm_sbc.Core.Variables.{Settings}
use bm_sbc.Core.Startup.{
  StackCall, l2_init, timer_callback_handler_init, ip_init, bcmp_init, topology_init, service_init,
  pubsub_init, middleware_init, Call, set_cfg_dir, config_init, log_init, log_set_level,
  device_init, uart_init, stack, pcap_open, register_pcap, dfu_restore_state, sys_info_service_init,
  config_cbor_map_service_init, Answers, gateway_mode, prepare, checks, start_stack, start,
}

-- `bm_err_check`: after an error it makes no call and keeps the error.
pub record ErrCheckLaws (err_check : ℕ → ℕ × List Call → ℕ × List Call) : Type 0 where
  pub runs : (r : ℕ × List Call) → err_check 0 r ≡ r
  pub skips : (e : ℕ) (r : ℕ × List Call) → err_check (suc e) r ≡ (suc e, [])

pub first_error : List (ℕ × StackCall) → ℕ
first_error [] = 0
first_error ((zero, call) ∷ rest) = first_error rest
first_error ((suc e, call) ∷ rest) = suc e

-- The calls up to the first that fails, and that one.
pub until_error : List (ℕ × StackCall) → List Call
until_error [] = []
until_error ((zero, call) ∷ rest) = stack call ∷ until_error rest
until_error ((suc e, call) ∷ rest) = stack call ∷ []

pub stack_calls : List Call → List Call
stack_calls [] = []
stack_calls (stack call ∷ calls) = stack call ∷ stack_calls calls
stack_calls (set_cfg_dir p ∷ calls) = stack_calls calls
stack_calls (config_init ∷ calls) = stack_calls calls
stack_calls (log_init a n d o ∷ calls) = stack_calls calls
stack_calls (log_set_level l ∷ calls) = stack_calls calls
stack_calls (device_init n d v ∷ calls) = stack_calls calls
stack_calls (uart_init p b ∷ calls) = stack_calls calls
stack_calls (pcap_open p ∷ calls) = stack_calls calls
stack_calls (register_pcap ∷ calls) = stack_calls calls
stack_calls (dfu_restore_state ∷ calls) = stack_calls calls
stack_calls (sys_info_service_init ∷ calls) = stack_calls calls
stack_calls (config_cbor_map_service_init ∷ calls) = stack_calls calls

abbrev pub plan : Answers → Settings → List (ℕ × StackCall)
plan a s =
    (a.l2, l2_init (gateway_mode s))
    ∷ (a.timer, timer_callback_handler_init)
    ∷ (a.ip, ip_init)
    ∷ (a.bcmp, bcmp_init)
    ∷ (a.topology, topology_init a.num_ports)
    ∷ (a.service, service_init)
    ∷ (a.pubsub, pubsub_init)
    ∷ (a.middleware, middleware_init)
    ∷ []

-- After an error nothing is called.
abbrev from : ℕ → List (ℕ × StackCall) → ℕ × List Call
from zero list = (first_error list, until_error list)
from (suc e) list = (suc e, [])

-- The pending update is read back before `bcmp_init` looks for it.
pub restored_first : List Call → Bool
restored_first [] = true
restored_first (dfu_restore_state ∷ calls) = true
restored_first (stack bcmp_init ∷ calls) = false
restored_first (stack (l2_init g) ∷ calls) = restored_first calls
restored_first (stack timer_callback_handler_init ∷ calls) = restored_first calls
restored_first (stack ip_init ∷ calls) = restored_first calls
restored_first (stack (topology_init n) ∷ calls) = restored_first calls
restored_first (stack service_init ∷ calls) = restored_first calls
restored_first (stack pubsub_init ∷ calls) = restored_first calls
restored_first (stack middleware_init ∷ calls) = restored_first calls
restored_first (set_cfg_dir p ∷ calls) = restored_first calls
restored_first (config_init ∷ calls) = restored_first calls
restored_first (log_init a n d o ∷ calls) = restored_first calls
restored_first (log_set_level l ∷ calls) = restored_first calls
restored_first (device_init n d v ∷ calls) = restored_first calls
restored_first (uart_init p b ∷ calls) = restored_first calls
restored_first (pcap_open p ∷ calls) = restored_first calls
restored_first (register_pcap ∷ calls) = restored_first calls
restored_first (sys_info_service_init ∷ calls) = restored_first calls
restored_first (config_cbor_map_service_init ∷ calls) = restored_first calls

prepared :
    (app_name : List ℕ) (a : Answers) (s : Settings) (calls : List Call)
    → (stack_calls (prepare app_name a s ++ calls) ≡ stack_calls calls)
      × (restored_first (prepare app_name a s ++ calls) ≡ restored_first calls)
unfolding prepare stack_calls restored_first
prepared app_name a s calls = ground arith

prepared_alone :
    (app_name : List ℕ) (a : Answers) (s : Settings)
    → (stack_calls (prepare app_name a s) ≡ []) × (restored_first (prepare app_name a s) ≡ true)
unfolding prepare stack_calls restored_first
prepared_alone app_name a s = ground arith

module _ (err_check : ℕ → ℕ × List Call → ℕ × List Call) (laws : ErrCheckLaws err_check) where
  checks_lem : (err : ℕ) (list : List (ℕ × StackCall)) → checks err_check err list ≡ from err list
  unfolding checks first_error until_error
  checks_lem zero [] = refl
  checks_lem (suc e) [] = refl
  checks_lem zero ((zero, call) ∷ rest) =
      rw (laws.runs (0, stack call ∷ []), checks_lem 0 rest) refl
  checks_lem zero ((suc e, call) ∷ rest) =
      rw (laws.runs (suc e, stack call ∷ []), checks_lem (suc e) rest) refl
  checks_lem (suc e) ((result, call) ∷ rest) =
      rw (laws.skips e (result, stack call ∷ []), checks_lem (suc e) rest) refl

  module _ (a : Answers) (s : Settings) where
    abbrev pub bad_pcap : Bool
    bad_pcap = not (is_empty s.pcap_path) && not a.pcap_ok

    abbrev lower : List (ℕ × StackCall)
    lower = (a.timer, timer_callback_handler_init) ∷ (a.ip, ip_init) ∷ []

    abbrev upper : List (ℕ × StackCall)
    upper =
        (a.bcmp, bcmp_init)
        ∷ (a.topology, topology_init a.num_ports)
        ∷ (a.service, service_init)
        ∷ (a.pubsub, pubsub_init)
        ∷ (a.middleware, middleware_init)
        ∷ []

    abbrev after_l2 : ℕ × List Call
    after_l2 = from 0 ((a.l2, l2_init (gateway_mode s)) ∷ [])

    start_stack_lem :
        ((start_stack err_check a s).0 ≡ (if bad_pcap then 1 else first_error (plan a s)))
        × (stack_calls (start_stack err_check a s).1
            ≡ (if bad_pcap then stack (l2_init (gateway_mode s)) ∷ [] else until_error (plan a s)))
        × (restored_first (start_stack err_check a s).1 ≡ true)
    unfolding start_stack first_error until_error stack_calls restored_first
    start_stack_lem =
        rw
          (
            checks_lem 0 ((a.l2, l2_init (gateway_mode s)) ∷ []),
            checks_lem after_l2.0 lower,
            checks_lem (from after_l2.0 lower).0 upper,
          )
          (ground arith)

    abbrev pub bad_uart : Bool
    bad_uart = gateway_mode s && not a.uart_ok

    -- With a serial device that does not open, or else with a file for the capture that does not open,
    -- the start fails with 1, and nothing of the stack, or nothing but its second layer, is
    -- initialised. Otherwise the start returns the first error of the eight initialisations of the
    -- stack, in their order, or 0 without one; they are made up to that first error, and none after
    -- it. Whatever happens, a pending update is read back before `bcmp_init` looks for it.
    pub start_lem :
        (app_name : List ℕ)
        → let (code, calls) = start err_check app_name a s in
          (code ≡ (if bad_uart || bad_pcap then 1 else first_error (plan a s)))
          × (stack_calls calls ≡ (
              if bad_uart
              then []
              else if bad_pcap
              then stack (l2_init (gateway_mode s)) ∷ []
              else until_error (plan a s)))
          × (restored_first calls ≡ true)
    unfolding start
    start_lem app_name = ground (
      arith,
      prepared app_name a s (start_stack err_check a s).1,
      prepared_alone app_name a s,
      start_stack_lem,
    )
