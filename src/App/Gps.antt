-- ===== src/App/Gps.antt =====
-- apps/gateway/app_main.cpp: `gprmc_callback` and `utc_callback`, whole. A step takes what the calls in
-- it return, and gives the state afterwards and what others see, in order.
pub mod Counts
pub mod Steps
pub mod Once
use bm_sbc.Prelude.{
  ℕ, ◌+◌, ◌*◌, ◌/◌, ◌%◌, Bool, true, false, not, Option, none, some, List, [], ◌∷◌, ◌++◌, map, ltb,
  ◌==◌, ◌&&◌, ◌||◌, if◌then◌else◌, take, ℤ, pos,
}
use bm_sbc.App.SbcCommand.{Context, Status, AppEvent, run_sbc_command}
use bm_sbc.App.Nmea.{Rmc, rejected, undefined, time_of, parse_nmea_rmc, line_after}
use bm_sbc.App.Zda.{UtcDateTime, zda_sentence}

pub record Gps : Type 0 where
  pub context : Context
  pub last_rmc_time : ℕ

-- `set_clock` stands with whether `clock_settime` succeeds; `send` is the datagram to port 5000.
pub data GpsEvent : Type 0 where
  set_clock : ℕ → ℤ → Bool → GpsEvent
  command : AppEvent → GpsEvent
  send : List ℕ → GpsEvent

-- What a callback is given by the system: whether the clock can be set, how the command ends, and the
-- time in seconds.
pub record Calls : Type 0 where
  pub clock_ok : Bool
  pub status : Status
  pub now : ℕ

abbrev pub synced : Gps → Gps
synced g = record g { context = record g.context { system_time_synced = true } }

-- The rest of both callbacks from `run_sbc_command` on, with the datagram to send, if any.
abbrev pub datagram : Option (List ℕ) → List GpsEvent
datagram none = []
datagram (some bytes) = send bytes ∷ []

unfoldable pub carry_on : ℕ → Calls → Option (List ℕ) → Gps → Gps × List GpsEvent
carry_on size c bytes g =
    let (context, events) = run_sbc_command size c.status g.context in
    (record g { context = context }, map command events ++ datagram bytes)

abbrev pub after_rmc : ℕ → Gps × List GpsEvent → Gps × List GpsEvent
after_rmc now (g, events) = (record g { last_rmc_time = now }, events)

abbrev pub with_event : GpsEvent → Gps × List GpsEvent → Gps × List GpsEvent
with_event event (g, events) = (g, event ∷ events)

-- What follows on the first time that a source gives.
unfoldable pub first_time : ℕ → Calls → ℤ → Gps → (Gps → Gps × List GpsEvent) → Gps × List GpsEvent
first_time seconds c nanoseconds g rest =
    if c.clock_ok
    then with_event (set_clock seconds nanoseconds true) (rest (synced g))
    else (g, set_clock seconds nanoseconds false ∷ [])

unfoldable pub sync_to :
    Rmc → Calls → Gps → (Gps → Gps × List GpsEvent) → Option (Gps × List GpsEvent)
unfolding first_time
sync_to rejected c g rest = some (g, [])
sync_to undefined c g rest = none
sync_to (time_of seconds nanoseconds) c g rest = some (first_time seconds c nanoseconds g rest)

-- `gprmc_callback`; `none` is where the parser reads what was never set. The line is forwarded as the
-- parser left it.
unfoldable pub gprmc_callback : ℕ → List ℕ → ℕ → Calls → Gps → Option (Gps × List GpsEvent)
unfolding carry_on sync_to
gprmc_callback size memory data_len c g =
    let send_on = λ (bytes : List ℕ) (g : Gps). after_rmc c.now (carry_on size c (some bytes) g) in
    if g.context.system_time_synced
    then some (send_on (take data_len memory) g)
    else sync_to (parse_nmea_rmc memory data_len) c g (send_on (line_after memory data_len))

-- A message on "spotter/utc-time".
pub record UtcMessage : Type 0 where
  pub type : ℕ
  pub version : ℕ
  pub data_len : ℕ
  pub utc_us : ℕ

-- The sentence is sent if no other has come for more than 30 seconds.
abbrev pub made_up : UtcDateTime → ℕ → ℕ → Option (List ℕ)
made_up rtc last_rmc_time now =
    if last_rmc_time == 0 || ltb (last_rmc_time + 30) now then some (zda_sentence rtc) else none

-- Of the stack: the size of the message, and the date of a time in microseconds.
module _ (utc_size : ℕ) (date_time_from_utc : ℕ → UtcDateTime) where
  -- `utc_callback`.
  unfoldable pub utc_callback : ℕ → UtcMessage → Calls → Gps → Gps × List GpsEvent
  unfolding carry_on first_time
  utc_callback size m c g =
      let rest = λ (g : Gps).
        carry_on size c (made_up (date_time_from_utc m.utc_us) g.last_rmc_time c.now) g in
      if not ((m.type == 1) && ((m.version == 1) && not (ltb m.data_len utc_size)))
      then (g, [])
      else if g.context.system_time_synced
      then rest g
      else first_time (m.utc_us / 1000000) c (pos (m.utc_us % 1000000 * 1000)) g rest
