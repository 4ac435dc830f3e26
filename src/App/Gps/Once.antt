-- ===== src/App/Gps/Once.antt =====
-- Any run of the callbacks of apps/gateway/app_main.cpp that bring the command and the time.
use mathlib.Core.Path.{subst}
use bm_sbc.Prelude.{
  ℕ, ◌*◌, ◌/◌, ◌%◌, ◌≡◌, ◌⊎◌, refl, true, not, Option, none, some, List, [], ◌∷◌, ◌++◌, map, ◌==◌,
  ◌&&◌, ltb, if◌then◌else◌, by_if, arith, pos,
}
use bm_sbc.App.SbcCommand.{Context, AppEvent, context, sbc_command_reply_cb}
use bm_sbc.App.SbcCommand.Once.{IsSettled, KeepsIf, reply-KeepsIf}
use bm_sbc.App.Zda.{UtcDateTime}
use bm_sbc.App.Gps.{
  Gps, GpsEvent, command, Calls, synced, carry_on, first_time, gprmc_callback, UtcMessage, made_up,
  utc_callback,
}
use bm_sbc.App.Gps.Counts.{
  commands, clock_sets, sends, counts-append, counts-command, sends-command,
}
use bm_sbc.App.Gps.Steps.{
  Steps, nothing-Steps, carry_on-Steps, first_time-Steps, StepsIfDefined, gprmc_callback-Steps,
}

-- The state at the start.
abbrev pub started : Gps
started = record { context = context; last_rmc_time = 0 }

-- What can come in: a reply with the command, a line of the receiver, a message with the time.
pub data Message : Type 0 where
  reply_in : Option (List ℕ) → Message
  rmc_in : List ℕ → ℕ → Message
  utc_in : UtcMessage → Message

abbrev pub as_gps : Gps → Option (Context × List AppEvent) → Option (Gps × List GpsEvent)
as_gps g none = none
as_gps g (some (s, events)) = some (record g { context = s }, map command events ++ [])

unfoldable pub reply_step : ℕ → Option (List ℕ) → Calls → Gps → Option (Gps × List GpsEvent)
reply_step size decoded c g = as_gps g (sbc_command_reply_cb size decoded c.status g.context)

as_gps-Steps :
    (g : Gps) (r : Option (Context × List AppEvent))
    → KeepsIf g.context r
    → StepsIfDefined g (as_gps g r)
as_gps-Steps g none kept = tt
as_gps-Steps g (some (s, events)) kept =
    ground (arith, kept, counts-command events none, sends-command events)

abbrev and_then : List GpsEvent → Option (Gps × List GpsEvent) → Option (Gps × List GpsEvent)
and_then events none = none
and_then events (some (g, later)) = some (g, events ++ later)

abbrev then_run :
    Option (Gps × List GpsEvent)
    → (Gps → Option (Gps × List GpsEvent))
    → Option (Gps × List GpsEvent)
then_run none rest = none
then_run (some (g, events)) rest = and_then events (rest g)

and_then-Steps :
    (g g' : Gps) (events : List GpsEvent) (later : Option (Gps × List GpsEvent))
    → Steps g (g', events)
    → StepsIfDefined g' later
    → StepsIfDefined g (and_then events later)
and_then-Steps g g' events none now rest = tt
and_then-Steps g g' events (some (g'', later)) now rest = ground (arith, counts-append events later)

then_run-Steps :
    (g : Gps) (now : Option (Gps × List GpsEvent)) (rest : Gps → Option (Gps × List GpsEvent))
    → StepsIfDefined g now
    → ((g' : Gps) → IsSettled g'.context → StepsIfDefined g' (rest g'))
    → StepsIfDefined g (then_run now rest)
then_run-Steps g none rest now later = tt
then_run-Steps g (some (g', events)) rest now later =
    and_then-Steps g g' events (rest g') now (later g' now.0)

module _ (utc_size : ℕ) (date_time_from_utc : ℕ → UtcDateTime) where
  utc_callback-Steps :
      (size : ℕ) (m : UtcMessage) (c : Calls) (g : Gps)
      → IsSettled g.context
      → Steps g (utc_callback utc_size date_time_from_utc size m c g)
  unfolding utc_callback
  utc_callback-Steps size m c g settled =
      let rest = λ (g : Gps).
        carry_on size c (made_up (date_time_from_utc m.utc_us) g.last_rmc_time c.now) g in
      let first : Gps × List GpsEvent =
        first_time (m.utc_us / 1000000) c (pos (m.utc_us % 1000000 * 1000)) g rest in
      let later : Gps × List GpsEvent = if g.context.system_time_synced then rest g else first in
      by_if {A = Gps × List GpsEvent} (Steps g)
        (not ((m.type == 1) && ((m.version == 1) && not (ltb m.data_len utc_size)))) (g, []) later
        (λ _. nothing-Steps g settled)
        (λ _.
          by_if {A = Gps × List GpsEvent} (Steps g) g.context.system_time_synced (rest g) first
            (λ known.
              carry_on-Steps size c (made_up (date_time_from_utc m.utc_us) g.last_rmc_time c.now) g
                known (ground arith))
            (λ unknown.
              first_time-Steps c g rest (m.utc_us / 1000000) (pos (m.utc_us % 1000000 * 1000))
                unknown settled
                (carry_on-Steps size c (made_up (date_time_from_utc m.utc_us) g.last_rmc_time c.now)
                  (synced g) refl (ground arith))))

  unfoldable pub step : ℕ → Message → Calls → Gps → Option (Gps × List GpsEvent)
  step size (reply_in decoded) c g = reply_step size decoded c g
  step size (rmc_in memory data_len) c g = gprmc_callback size memory data_len c g
  step size (utc_in m) c g = some (utc_callback utc_size date_time_from_utc size m c g)

  step-Steps :
      (size : ℕ) (m : Message) (c : Calls) (g : Gps)
      → IsSettled g.context
      → StepsIfDefined g (step size m c g)
  unfolding step reply_step
  step-Steps size (reply_in decoded) c g settled =
      as_gps-Steps g _ (reply-KeepsIf size decoded c.status g.context settled)
  step-Steps size (rmc_in memory data_len) c g settled =
      gprmc_callback-Steps size memory data_len c g settled
  step-Steps size (utc_in m) c g settled = utc_callback-Steps size m c g settled

  -- `none` where a line of the receiver makes the parser read what was never set, or a reply with the
  -- command does not fit its array.
  unfoldable pub run : ℕ → List (Message × Calls) → Gps → Option (Gps × List GpsEvent)
  run size [] g = some (g, [])
  run size ((m, c) ∷ ms) g = then_run (step size m c g) (run size ms)

  run-Steps :
      (size : ℕ) (ms : List (Message × Calls)) (g : Gps)
      → IsSettled g.context
      → StepsIfDefined g (run size ms g)
  unfolding run
  run-Steps size [] g settled = nothing-Steps g settled
  run-Steps size ((m, c) ∷ ms) g settled =
      then_run-Steps g (step size m c g) (run size ms) (step-Steps size m c g settled)
        (run-Steps size ms)

  -- After any replies with the command, lines of the receiver and messages with the time, in any order
  -- and any number, whatever the system calls return, as long as each command fits its array with a
  -- terminator and the parser reads no field that it did not set: the command has been run exactly if
  -- one has come and the time is known, and then once; the clock has been set exactly if the time is
  -- known, and then once; and as long as the time is not known, nothing has been sent.
  pub gps_once :
      (size : ℕ) (ms : List (Message × Calls)) (g : Gps) (events : List GpsEvent)
      → run size ms started ≡ some (g, events)
      → (commands events
          ≡ (if g.context.system_time_synced && g.context.sbc_command_received then 1 else 0))
        × (clock_sets events ≡ (if g.context.system_time_synced then 1 else 0))
        × ((g.context.system_time_synced ≡ true) ⊎ (sends events ≡ 0))
  gps_once size ms g events defined =
      let steps : Steps started (g, events) =
        subst (StepsIfDefined started) defined (run-Steps size ms started refl) in
      ground (arith, steps)
