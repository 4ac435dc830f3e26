-- ===== src/Net/Device.antt =====
-- NetworkDeviceTrait: the operations that a network device offers to the stack, and those of the
-- device of virtual ports (src/net/virtual_port_device.cpp).
use bm_sbc.Prelude.{ℕ, Bool, Option, List}
use bm_sbc.Net.Errors.{BmErr, bm_ok}
use bm_sbc.Net.VirtualPort
use bm_sbc.Net.VirtualPort.{VirtualPort, Event, Step, max_peers}

-- `S` is the state of the device. `has_link_change` and `has_receive` say which of its callbacks are
-- set. `retry_negotiation` also gives the value of `*renegotiated`.
pub record Trait (S : Type 0) : Type 0 where
  pub send : Option (List ℕ) → ℕ → S → BmErr × List Event
  pub enable : S → S × BmErr × List Event
  pub disable : S → S × BmErr × List Event
  pub enable_port : ℕ → S → S × BmErr × List Event
  pub disable_port : ℕ → S → S × BmErr × List Event
  pub retry_negotiation : ℕ → S → (S × BmErr × List Event) × Bool
  pub num_ports : ℕ
  pub port_stats : ℕ → S → BmErr
  pub handle_interrupt : S → BmErr
  pub has_link_change : S → Bool
  pub has_receive : S → Bool

-- What the system calls of one operation of the device return.
pub record System : Type 0 where
  pub recv : Option ℕ
  pub bind_ok : Bool
  pub socket : ℕ → Option ℕ
  pub thread_ok : Bool
  pub sent : ℕ → Bool
  pub sfd : Option ℕ
  pub reachable : Bool

-- `s_vpd_trait`, with the stubs `vpd_port_stats` and `vpd_handle_interrupt`.
unfoldable pub vpd_trait : System → Trait VirtualPort
vpd_trait y = record {
  send = VirtualPort.send y.sent;
  enable = VirtualPort.enable y.recv y.bind_ok y.socket y.thread_ok;
  disable = VirtualPort.disable;
  enable_port = VirtualPort.enable_port y.sfd;
  disable_port = VirtualPort.disable_port;
  retry_negotiation = VirtualPort.retry_negotiation y.reachable y.sfd;
  num_ports = max_peers;
  port_stats = λ port_index s. bm_ok;
  handle_interrupt = λ s. bm_ok;
  has_link_change = λ s. s.has_link_change;
  has_receive = λ s. s.has_receive;
}
