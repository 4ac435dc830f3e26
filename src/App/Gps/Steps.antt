-- ===== src/App/Gps/Steps.antt =====
-- One callback of apps/gateway/app_main.cpp keeps track of the command and of the time.
use bm_sbc.Prelude.{
  ℕ, ◌+◌, ◌≡◌, ◌⊎◌, inr, refl, true, false, Option, none, some, List, [], take, by_if, arith, ℤ,
}
use bm_sbc.App.SbcCommand.{run_sbc_command}
use bm_sbc.App.SbcCommand.Once.{IsSettled, runs, run_sbc_command-Keeps, run_sbc_command-flags}
use bm_sbc.App.Nmea.{Rmc, rejected, undefined, time_of, parse_nmea_rmc, line_after}
use bm_sbc.App.Gps.{
  Gps, GpsEvent, Calls, synced, carry_on, after_rmc, first_time, sync_to, gprmc_callback,
}
use bm_sbc.App.Gps.Counts.{commands, clock_sets, sends, counts-command}

-- From one state to the next: the command has been run exactly if it is settled that it is, the clock
-- has been set exactly if it is known, and nothing is sent before that.
abbrev pub Steps : Gps → Gps × List GpsEvent → Type 0
Steps g r =
    IsSettled r.0.context
    × (commands r.1 + runs g.context.sbc_command_ran ≡ runs r.0.context.sbc_command_ran)
    × (clock_sets r.1 + runs g.context.system_time_synced ≡ runs r.0.context.system_time_synced)
    × ((r.0.context.system_time_synced ≡ true) ⊎ (sends r.1 ≡ 0))

pub nothing-Steps : (g : Gps) → IsSettled g.context → Steps g (g, [])
unfolding commands clock_sets sends
nothing-Steps g settled = (settled, omega arith, omega arith, inr refl)

-- Called where the time is known, be it just now.
pub carry_on-Steps :
    (size : ℕ) (c : Calls) (bytes : Option (List ℕ)) (g : Gps)
    → g.context.system_time_synced ≡ true
    → (g.context.sbc_command_ran ≡ true → g.context.sbc_command_received ≡ true)
    → Steps g (carry_on size c bytes g)
unfolding carry_on
carry_on-Steps size c bytes g known once =
    let kept = run_sbc_command-Keeps size c.status g.context (ground arith) in
    let flags = run_sbc_command-flags size c.status g.context in
    let counted = counts-command (run_sbc_command size c.status g.context).1 bytes in
    ground (arith, kept, flags, counted)

after_rmc-Steps :
    (now : ℕ) (g : Gps) (r : Gps × List GpsEvent) → Steps g r → Steps g (after_rmc now r)
after_rmc-Steps now g r h = h

module _ (c : Calls) (g : Gps) (rest : Gps → Gps × List GpsEvent) where
  pub first_time-Steps :
      (seconds : ℕ) (nanoseconds : ℤ)
      → g.context.system_time_synced ≡ false
      → IsSettled g.context
      → Steps (synced g) (rest (synced g))
      → Steps g (first_time seconds c nanoseconds g rest)
  unfolding first_time commands clock_sets sends
  first_time-Steps seconds nanoseconds unknown settled later =
      by_if (Steps g) c.clock_ok _ _ (λ _. ground (arith, later)) (λ _. ground arith)

abbrev pub StepsIfDefined : Gps → Option (Gps × List GpsEvent) → Type 0
StepsIfDefined g none = Unit {0}
StepsIfDefined g (some r) = Steps g r

sync_to-Steps :
    (parsed : Rmc) (c : Calls) (g : Gps) (rest : Gps → Gps × List GpsEvent)
    → g.context.system_time_synced ≡ false
    → IsSettled g.context
    → Steps (synced g) (rest (synced g))
    → StepsIfDefined g (sync_to parsed c g rest)
unfolding sync_to commands clock_sets sends
sync_to-Steps rejected c g rest unknown settled later = ground arith
sync_to-Steps undefined c g rest unknown settled later = tt
sync_to-Steps (time_of seconds nanoseconds) c g rest unknown settled later =
    first_time-Steps c g rest seconds nanoseconds unknown settled later

pub gprmc_callback-Steps :
    (size : ℕ) (memory : List ℕ) (data_len : ℕ) (c : Calls) (g : Gps)
    → IsSettled g.context
    → StepsIfDefined g (gprmc_callback size memory data_len c g)
unfolding gprmc_callback
gprmc_callback-Steps size memory data_len c g settled =
    by_if (StepsIfDefined g) g.context.system_time_synced _ _
      (λ known. carry_on-Steps size c (some (take data_len memory)) g known (ground arith))
      (λ unknown.
        sync_to-Steps (parse_nmea_rmc memory data_len) c g _ unknown settled (
          carry_on-Steps size c (some (line_after memory data_len)) (synced g) refl (ground arith)))
