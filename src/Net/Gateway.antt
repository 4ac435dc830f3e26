-- ===== src/Net/Gateway.antt =====
-- src/net/gateway_device.cpp and .h: the device that adds the serial link, as one more port, to a
-- network device.
pub mod Routing
pub mod Bridge
pub mod Retries
use bm_sbc.Prelude.{
  ℕ, ◌+◌, ◌-◌, Bool, true, false, not, Option, none, some, List, [], ◌∷◌, ◌++◌, ltb, leb, ◌==◌,
  ◌&&◌, if◌then◌else◌, length, map,
}
use bm_sbc.Uart.Transport.{
  Port, SendResult, success, failure, waiting, WriteEvent, uart_l2_send, transport_deinit,
}
use bm_sbc.Net.Errors.{BmErr, bm_ok, bm_einval, bm_eio, bm_enodata, bm_eperm}
use bm_sbc.Net.VirtualPort.{Event, receive, notify}
use bm_sbc.Net.Device.{Trait}

-- MAX_TOTAL_PORTS, GATEWAY_UART_PORT.
abbrev pub max_total_ports : ℕ
max_total_ports = 15

abbrev pub gateway_uart_port : ℕ
gateway_uart_port = max_total_ports

-- `s_gw`, and the state of the serial transport beside it.
pub record Gateway (S : Type 0) : Type 0 where
  pub vpd : S
  pub vpd_ports : ℕ
  pub uart_port : ℕ
  pub uart : Port

-- A call of the wrapped device or of the callbacks it shares; bytes on the serial line; and
-- `bm_l2_netif_enable_disable_port(port, true)`.
pub data GwEvent : Type 0 where
  vpd_event : Event → GwEvent
  uart_bytes : List ℕ → GwEvent
  port_up : ℕ → GwEvent

abbrev pub is_ok : BmErr → Bool
is_ok bm_ok = true
is_ok bm_einval = false
is_ok bm_eio = false
is_ok bm_enodata = false
is_ok bm_eperm = false

abbrev pub vpd_events : List Event → List GwEvent
vpd_events es = map vpd_event es

-- The result of the flood: `none` while a write has not returned.
abbrev pub flood_err : BmErr → SendResult → Option BmErr
flood_err vpd_err success = some bm_ok
flood_err vpd_err failure = some (if is_ok vpd_err then bm_ok else vpd_err)
flood_err vpd_err waiting = none

abbrev pub uart_err : SendResult → Option BmErr
uart_err success = some bm_ok
uart_err failure = some bm_eio
uart_err waiting = none

module _ {S : Type 0} (t : Trait S) where
  -- `gateway_device_get`.
  pub gateway_device_get : S → Port → Gateway S
  gateway_device_get vpd_dev uart =
      let vpd_ports =
        if leb max_total_ports t.num_ports then max_total_ports - 1 else t.num_ports in
      record { vpd = vpd_dev; vpd_ports = vpd_ports; uart_port = vpd_ports + 1; uart = uart }

  -- `gw_num_ports`.
  pub gw_num_ports : Gateway S → ℕ
  gw_num_ports g = g.vpd_ports + 1

  abbrev pub is_vpd_port : ℕ → Gateway S → Bool
  is_vpd_port port g = leb 1 port && leb port g.vpd_ports

  -- `gw_send` for a frame that is not a null pointer; `events` is what the writes to the serial line
  -- return.
  pub gw_send : List WriteEvent → List ℕ → ℕ → Gateway S → Option BmErr × List GwEvent
  gw_send events frame port g =
      if port == 0
      then (
        flood_err (t.send (some frame) 0 g.vpd).0 (uart_l2_send g.uart (some frame) events).1,
        vpd_events (t.send (some frame) 0 g.vpd).1
            ++ uart_bytes (uart_l2_send g.uart (some frame) events).0 ∷ [],
      )
      else if is_vpd_port port g
      then (some (t.send (some frame) port g.vpd).0, vpd_events (t.send (some frame) port g.vpd).1)
      else if port == g.uart_port
      then (
        uart_err (uart_l2_send g.uart (some frame) events).1,
        uart_bytes (uart_l2_send g.uart (some frame) events).0 ∷ [],
      )
      else (some bm_einval, [])

  abbrev pub GwStep : Type 0
  GwStep = Gateway S × BmErr × List GwEvent

  -- A step of the wrapped device.
  abbrev pub delegate : S × BmErr × List Event → Gateway S → GwStep
  delegate (s, err, events) g = (record g { vpd = s }, err, vpd_events events)

  abbrev pub uart_link : Bool → Gateway S → List GwEvent
  uart_link up g = vpd_events (notify (t.has_link_change g.vpd) (g.uart_port - 1) up)

  -- `gw_enable`.
  pub gw_enable : Gateway S → GwStep
  gw_enable g =
      let (g', err, events) = delegate (t.enable g.vpd) g in
      (g', err, events ++ (if is_ok err then uart_link true g' else []))

  -- `gw_disable`.
  pub gw_disable : Gateway S → GwStep
  gw_disable g =
      let (g', err, events) =
        delegate (t.disable g.vpd) (record g { uart = transport_deinit g.uart }) in
      (g', err, uart_link false g ++ events)

  -- `gw_enable_port`.
  pub gw_enable_port : ℕ → Gateway S → GwStep
  gw_enable_port port_num g =
      if is_vpd_port port_num g
      then delegate (t.enable_port port_num g.vpd) g
      else if port_num == g.uart_port
      then (g, bm_ok, [])
      else (g, bm_einval, [])

  -- `gw_disable_port`.
  pub gw_disable_port : ℕ → Gateway S → GwStep
  gw_disable_port port_num g =
      if is_vpd_port port_num g
      then delegate (t.disable_port port_num g.vpd) g
      else if port_num == g.uart_port
      then (g, bm_ok, [])
      else (g, bm_einval, [])

  -- `gw_retry_negotiation`.
  pub gw_retry_negotiation : ℕ → Gateway S → GwStep × Bool
  gw_retry_negotiation port_index g =
      if ltb port_index g.vpd_ports
      then (
        delegate (t.retry_negotiation port_index g.vpd).0 g,
        (t.retry_negotiation port_index g.vpd).1,
      )
      else ((g, bm_ok, []), false)

  -- `gw_port_stats`.
  pub gw_port_stats : ℕ → Gateway S → BmErr
  gw_port_stats port_index g =
      if ltb port_index g.vpd_ports then t.port_stats port_index g.vpd else bm_ok

  -- `gw_handle_interrupt`.
  pub gw_handle_interrupt : Gateway S → BmErr
  gw_handle_interrupt g = t.handle_interrupt g.vpd

  -- `gw_neighbor_discovery_cb`; the neighbour is known by its port.
  pub gw_neighbor_discovery_cb : Bool → Option ℕ → Gateway S → List GwEvent
  gw_neighbor_discovery_cb up none g = []
  gw_neighbor_discovery_cb up (some port) g =
      if not (port == g.uart_port)
      then []
      else vpd_events (notify (t.has_link_change g.vpd) (port - 1) up)

  -- `gateway_uart_rx_cb`; `is_up` is what `bm_l2_get_port_state` says of the port.
  pub gateway_uart_rx_cb : Bool → List ℕ → Gateway S → List GwEvent
  gateway_uart_rx_cb is_up frame g =
      (if not is_up then port_up gateway_uart_port ∷ [] else [])
      ++ (if t.has_receive g.vpd && ltb 0 (length frame)
          then vpd_event (receive g.uart_port frame) ∷ []
          else [])
