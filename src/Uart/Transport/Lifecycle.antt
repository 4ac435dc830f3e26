-- ===== src/Uart/Transport/Lifecycle.antt =====
-- Opening and closing the port.
use bm_sbc.Prelude.{ℕ, ◌≡◌, ◌≢◌, ◌↔◌, Bool, true, false, Option, none, some, List, [], ◌∷◌, arith}
use bm_sbc.Uart.Transport.{Port, baud_to_speed, serial_open, transport_init, transport_deinit}

abbrev pub is_open : Option ℕ → Bool
is_open none = false
is_open (some fd) = true

-- `s_rx_running` is set exactly while the port is open.
abbrev pub IsConsistent : Port → Type 0
IsConsistent p = p.rx_running ≡ is_open p.fd

pub data PortCall : Type 0 where
  init : ℕ → Option ℕ → Bool → Bool → PortCall
  deinit : PortCall

abbrev pub call : PortCall → Port → Port
call (init baud opened rx_cb thread_ok) p = (transport_init baud opened rx_cb thread_ok p).0
call deinit p = transport_deinit p

abbrev pub calls : List PortCall → Port → Port
calls [] p = p
calls (c ∷ cs) p = calls cs (call c p)

call-IsConsistent : (c : PortCall) (p : Port) → IsConsistent p → IsConsistent (call c p)
unfolding transport_init transport_deinit
call-IsConsistent (init baud opened rx_cb thread_ok) p v = ground arith
call-IsConsistent deinit p v = ground arith

-- After any calls of init and deinit, whatever the system answers, `s_rx_running` is set
-- exactly if the port is open.
pub calls-IsConsistent :
    (cs : List PortCall) (p : Port) → IsConsistent p → IsConsistent (calls cs p)
calls-IsConsistent [] p v = v
calls-IsConsistent (c ∷ cs) p v = calls-IsConsistent cs (call c p) (call-IsConsistent c p v)

-- `uart_l2_transport_init` returns 0 exactly if the port was closed, the baud rate is one of the
-- supported ones, the device opens and the thread starts. The port is open afterwards if it was
-- open before or the call succeeded, and a call on an open port changes nothing.
pub transport_init_lem :
    (baud : ℕ) (opened : Option ℕ) (rx_cb thread_ok : Bool) (p : Port)
    → let (q, returned_zero) = transport_init baud opened rx_cb thread_ok p in
      ((returned_zero ≡ true)
        ↔ ((p.fd ≡ none) × (baud_to_speed baud ≢ none) × (opened ≢ none) × (thread_ok ≡ true)))
      × ((returned_zero ≡ true) → (q.fd ≡ opened) × (q.rx_cb ≡ rx_cb))
      × ((returned_zero ≡ false) → q.fd ≡ p.fd)
      × ((p.fd ≢ none) → q ≡ p)
unfolding transport_init serial_open
transport_init_lem baud opened rx_cb thread_ok p = ground arith
