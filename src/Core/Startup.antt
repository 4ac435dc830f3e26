-- ===== src/Core/Startup.antt =====
-- The second half of bm_sbc_runtime_init in src/core/runtime.cpp: what a node does with its settings, in
-- order, and with what it returns.
pub mod Order
use bm_sbc.Prelude.{
  ℕ, Bool, not, Option, none, some, List, [], ◌∷◌, ◌++◌, ◌&&◌, ◌||◌, if◌then◌else◌, take, is_empty,
  ℤ,
}
use bm_sbc.Core.Variables.{Settings}

-- The initialisations of the stack, each with its error check.
pub data StackCall : Type 0 where
  l2_init : (gateway : Bool) → StackCall
  timer_callback_handler_init ip_init bcmp_init : StackCall
  topology_init : (ports : ℕ) → StackCall
  service_init pubsub_init middleware_init : StackCall

-- The calls in order, with what of the settings they are given.
pub data Call : Type 0 where
  set_cfg_dir : List ℕ → Call
  config_init : Call
  log_init :
      (app_name : List ℕ) (node_id : ℕ) (log_dir : Option (List ℕ)) (also_stdout : Bool) → Call
  log_set_level : ℕ → Call
  device_init : (node_id : ℕ) (device_name version_string : List ℕ) → Call
  uart_init : List ℕ → ℤ → Call
  stack : StackCall → Call
  pcap_open : List ℕ → Call
  register_pcap dfu_restore_state : Call
  sys_info_service_init config_cbor_map_service_init : Call

-- What the calls return, and what is asked of the system; 0 is BmOK.
pub record Answers : Type 0 where
  pub is_tty : Bool
  pub device_name : List ℕ
  pub version_tag : List ℕ
  pub uart_ok : Bool
  pub pcap_ok : Bool
  pub num_ports : ℕ
  pub l2 : ℕ
  pub timer : ℕ
  pub ip : ℕ
  pub bcmp : ℕ
  pub topology : ℕ
  pub service : ℕ
  pub pubsub : ℕ
  pub middleware : ℕ

abbrev pub level_call : Option ℕ → List Call
level_call none = []
level_call (some level) = log_set_level level ∷ []

abbrev pub given : List ℕ → Option (List ℕ)
given path = if is_empty path then none else some path

abbrev pub gateway_mode : Settings → Bool
gateway_mode s = not (is_empty s.uart_path)

-- Up to the network device.
pub prepare : List ℕ → Answers → Settings → List Call
prepare app_name a s =
    (if is_empty s.cfg_dir then [] else set_cfg_dir s.cfg_dir ∷ [])
    ++ (config_init
        ∷ log_init app_name s.own_node_id (given s.log_dir) (s.log_stdout || a.is_tty)
        ∷ (level_call s.log_level
            ++ (device_init s.own_node_id a.device_name
                  (take 127 (app_name ++ b'@' ∷ a.version_tag))
                ∷ (if gateway_mode s then uart_init s.uart_path s.baud_rate ∷ [] else []))))

-- `bm_err_check(err, f)` of the stack: the error before, what `f` returns and does, and what then holds
-- and is done.
module _ (err_check : ℕ → ℕ × List Call → ℕ × List Call) where
  -- One check after the other.
  pub checks : ℕ → List (ℕ × StackCall) → ℕ × List Call
  checks err [] = (err, [])
  checks err ((result, call) ∷ rest) =
      let (err', now) = err_check err (result, stack call ∷ []) in
      let (last, later) = checks err' rest in (last, now ++ later)

  -- From `bm_l2_init` on.
  pub start_stack : Answers → Settings → ℕ × List Call
  start_stack a s =
      let (err, l2) = checks 0 ((a.l2, l2_init (gateway_mode s)) ∷ []) in
      let (err', lower) =
        checks err ((a.timer, timer_callback_handler_init) ∷ (a.ip, ip_init) ∷ []) in
      let (last, upper) = checks err' (
        (a.bcmp, bcmp_init)
        ∷ (a.topology, topology_init a.num_ports)
        ∷ (a.service, service_init)
        ∷ (a.pubsub, pubsub_init)
        ∷ (a.middleware, middleware_init)
        ∷ []) in
      let pcap : List Call =
        if is_empty s.pcap_path
        then []
        else pcap_open s.pcap_path ∷ (if a.pcap_ok then register_pcap ∷ [] else []) in
      if not (is_empty s.pcap_path) && not a.pcap_ok then (1, l2 ++ pcap) else (
        last,
        l2
            ++ (pcap
                ++ (lower
                    ++ (dfu_restore_state
                        ∷ (upper ++ (sys_info_service_init ∷ config_cbor_map_service_init ∷ []))))),
      )

  abbrev pub after_prepare : List Call → ℕ × List Call → ℕ × List Call
  after_prepare front (code, calls) = (code, front ++ calls)

  -- The second half of `bm_sbc_runtime_init`.
  pub start : List ℕ → Answers → Settings → ℕ × List Call
  start app_name a s =
      if gateway_mode s && not a.uart_ok
      then (1, prepare app_name a s)
      else after_prepare (prepare app_name a s) (start_stack a s)
