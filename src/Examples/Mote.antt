-- ===== src/Examples/Mote.antt =====
-- The time and the configuration that a gateway gets: apps/gateway/app_main.cpp.
use bm_sbc.Prelude.{
  ℕ, ◌*◌, ◌≡◌, ◌⊎◌, refl, ap, true, false, Option, none, some, List, [], ◌∷◌, ◌++◌, ◌&&◌, ◌==◌,
  if◌then◌else◌, length, drop, pos, arith,
}
use bm_sbc.Core.Number.{
  digit_value, is_digit, scan_digits, is_space, skip_space, skip_prefix, scan_number, strtoull,
}
use bm_sbc.Calendar.{Tm, gmtime, is_leap, days_in_month}
use bm_sbc.Calendar.RoundTrip.{IsDate}
use bm_sbc.App.SbcCommand.{context, exited, run_command, run_sbc_command, sbc_command_reply_cb}
use bm_sbc.App.Nmea.{checksum_loop, nmea_checksum_valid, time_of, parse_nmea_rmc}
use bm_sbc.App.Nmea.Checksum.{sentence, altered_rejected}
use bm_sbc.App.Nmea.Fields.{time_text, date_text, comma_joined, parse_nmea_rmc_lem}
use bm_sbc.App.Zda.{UtcDateTime, hex_byte, zda_sentence}
use bm_sbc.App.Zda.Valid.{zda_sentence_valid}
use bm_sbc.App.Gps.{
  Gps, GpsEvent, set_clock, command, send, Calls, carry_on, first_time, sync_to, gprmc_callback,
  utc_callback,
}
use bm_sbc.App.Gps.Counts.{commands, clock_sets, sends}
use bm_sbc.App.Gps.Once.{Message, reply_in, rmc_in, utc_in, reply_step, step, run, gps_once}
use bm_sbc.App.InitLog.{
  Entry, CborValue, unsigned, text_string, Paths, WriteCalls, completes, write_init_log_file,
}
use bm_sbc.App.Configs.{Answer, get_mote_system_configs}
use bm_sbc.App.Configs.Retrieved.{StartsWith, configs_retrieved}
use bm_sbc.App.InitLog.Atomic.{Apart, Written, write_init_log_file_lem}

abbrev noon : Tm
noon = record { year = 2026; month = 7; day = 4; hour = 12; minute = 0; second = 0 }

noon-IsDate : IsDate noon
unfolding days_in_month is_leap
noon-IsDate = record {
  year_in = omega arith;
  month_in = (omega arith, omega arith);
  day_in = (omega arith, omega arith);
  hour_in = omega arith;
  minute_in = omega arith;
  second_in = omega arith;
}

abbrev fields : List (List ℕ)
fields =
    (b'$' ∷ b'G' ∷ b'P' ∷ b'R' ∷ b'M' ∷ b'C' ∷ [])
    ∷ time_text noon 50
    ∷ (b'A' ∷ [])
    ∷ []
    ∷ []
    ∷ []
    ∷ []
    ∷ []
    ∷ []
    ∷ date_text noon
    ∷ []

abbrev checksum : List ℕ
checksum = b'*' ∷ b'2' ∷ b'5' ∷ 13 ∷ 10 ∷ []

parse_nmea_rmc_lem_example :
    (seconds : ℕ) × (parse_nmea_rmc
        (comma_joined fields checksum ++ [])
        (length (comma_joined fields checksum))
      ≡ time_of seconds (pos (50 * 10000000)))
    × (gmtime seconds ≡ noon)
unfolding comma_joined checksum_loop nmea_checksum_valid digit_value is_digit scan_digits is_space
    skip_space skip_prefix scan_number strtoull
parse_nmea_rmc_lem_example =
    parse_nmea_rmc_lem fields checksum [] noon 50 (ground arith) (omega arith) refl refl noon-IsDate
      (omega arith) (omega arith) (omega arith) (omega arith) refl

altered_rejected_example : nmea_checksum_valid (sentence (b'G' ∷ b'S' ∷ []) 21 ++ []) 8 ≡ false
unfolding checksum_loop nmea_checksum_valid digit_value is_digit scan_digits is_space skip_space
    skip_prefix scan_number strtoull hex_byte
altered_rejected_example =
    altered_rejected (b'G' ∷ []) [] [] b'R' b'S' 21 (omega arith) (omega arith) (omega arith)
      (omega arith) refl

abbrev rtc : UtcDateTime
rtc = record { year = 2026; month = 7; day = 4; hour = 12; min = 0; sec = 0; usec = 500000 }

zda_sentence_valid_example :
    (length (zda_sentence rtc) ≡ 38)
    × (drop 36 (zda_sentence rtc) ≡ 13 ∷ 10 ∷ [])
    × (nmea_checksum_valid (zda_sentence rtc ++ []) 38 ≡ true)
zda_sentence_valid_example = zda_sentence_valid rtc [] (record {
  month_in = omega arith;
  day_in = omega arith;
  hour_in = omega arith;
  min_in = omega arith;
  sec_in = omega arith;
  usec_in = omega arith;
})

abbrev given : Calls
given = record { clock_ok = true; status = exited 1; now = 9 }

-- The command comes first, then the time, then a line of the receiver.
abbrev messages : List (Message × Calls)
messages =
    (reply_in (some (b'x' ∷ [])), given)
    ∷ (utc_in (record { type = 1; version = 1; data_len = 10; utc_us = 2000000 }), given)
    ∷ (rmc_in (b'$' ∷ b'G' ∷ []) 2, given)
    ∷ []

abbrev ended : Gps
ended = record {
  context = record context {
    sbc_command_received = true;
    system_time_synced = true;
    sbc_command = b'x' ∷ [];
    sbc_command_ran = true;
  };
  last_rmc_time = 9;
}

abbrev made : List GpsEvent
made =
    set_clock 2 (pos 0) true
    ∷ command (run_command (b'x' ∷ []))
    ∷ send (zda_sentence rtc)
    ∷ send (b'$' ∷ b'G' ∷ [])
    ∷ []

gps_once_example :
    (commands made ≡ (if true && true then 1 else 0))
    × (clock_sets made ≡ (if true then 1 else 0))
    × ((true ≡ true) ⊎ (sends made ≡ 0))
unfolding reply_step step run utc_callback gprmc_callback carry_on first_time sync_to
    run_sbc_command sbc_command_reply_cb
gps_once_example = gps_once 10 (λ utc. rtc) 50 messages ended made refl

abbrev paths : Paths
paths = record { init_log = b'l' ∷ []; tmp = b't' ∷ b'm' ∷ []; backup = b'b' ∷ b'a' ∷ b'k' ∷ [] }

paths-Apart : Apart paths
paths-Apart = record {
  log-tmp = λ e. absurd (omega (arith, ap length e));
  log-backup = λ e. absurd (omega (arith, ap length e));
  tmp-backup = λ e. absurd (omega (arith, ap length e));
}

abbrev works : WriteCalls
works = record {
  is_map = true;
  opens = true;
  enters = true;
  written = λ text. text;
  closes = true;
  renames = true;
  copies = completes;
}

abbrev entry : CborValue → Entry
entry value = record {
  is_text = true;
  key = some (b'k' ∷ []);
  advances = true;
  value = value;
  advances_again = true;
}

abbrev entries : List Entry
entries = entry (unsigned (some 7)) ∷ entry (text_string (some (b'v' ∷ []))) ∷ []

write_init_log_file_lem_example :
    Written works paths
      (b'a' ∷ [])
      entries
      (λ p. none)
      (write_init_log_file works paths (b'a' ∷ []) entries)
write_init_log_file_lem_example =
    write_init_log_file_lem works paths (b'a' ∷ []) entries (λ p. none)
      (record {
        log-tmp = λ e. absurd (omega (arith, ap length e));
        log-backup = λ e. absurd (omega (arith, ap length e));
        tmp-backup = λ e. absurd (omega (arith, ap length e));
      })

-- The second of the requests is answered with a map, the others are refused, all after 70 ms.
abbrev answers : ℕ → Answer
answers k = record {
  after = 70;
  calls = works;
  reply =
      if k == 1
      then some (record {
        decodes = true;
        success = true;
        has_data = true;
        map_len = 9;
        entries = entries;
      })
      else none;
}

configs_retrieved_example :
    StartsWith paths
      (b'a' ∷ [])
      answers
      (λ p. none)
      (get_mote_system_configs paths (b'a' ∷ []) answers completes (λ p. none))
configs_retrieved_example =
    configs_retrieved paths (b'a' ∷ []) answers completes (λ p. none) paths-Apart

-- Only the second of the requests is answered, after 70 ms.
abbrev replies : ℕ → Option ℕ
replies k = if k == 1 then some 70 else none
