-- ===== src/Examples/Partitions.antt =====
-- The partitions of the configuration: src/platform/linux/platform_linux.cpp.
use bm_sbc.Prelude.{
  ℕ, ◌+◌, ◌*◌, ◌%◌, ◌^◌, ◌≡◌, refl, true, false, some, [], ◌∷◌, ◌==◌, ◌&&◌, leb, ltb, if◌then◌else◌,
  get_or, arith,
}
use bm_sbc.Platform.Files.{FilePath, Files, replay}
use bm_sbc.Platform.Config.{CfgDir, set_cfg_dir, ReadCalls, config_read, WriteCalls, config_write}
use bm_sbc.Platform.Config.Staging.{WritesWell}
use bm_sbc.Platform.Config.Persistence.{config_read-config_write}
use bm_sbc.Net.Errors.{bm_ok}
use bm_sbc.Calendar.{is_leap, days_in_month}
use bm_sbc.Calendar.RoundTrip.{IsDate}
use bm_sbc.Platform.Rtc.{
  RtcTimeAndDate, civil, clock_set, bm_rtc_set, bm_rtc_get, bm_rtc_get_micro_seconds,
  rtc_get-rtc_set,
}

abbrev dir : FilePath
dir = b'/' ∷ b'c' ∷ []

abbrev before : CfgDir
before = record { cfg_dir = []; cfg_paths = λ i. []; cfg_dir_set = false }

abbrev s : CfgDir
s = set_cfg_dir (some dir) true before

-- Every file holds three bytes.
abbrev files : Files
files p = some (1 ∷ 2 ∷ 3 ∷ [])

abbrev writes : WriteCalls
writes = record {
  allocates = true;
  opens_old = true;
  reads_old = 100;
  seeks_end = true;
  reallocates = true;
  seeks_tail = true;
  reads_tail = 100;
  heap = λ i. 7;
  opens_tmp = true;
  writes = 100;
  syncs = true;
  closes = true;
  renames = true;
}

abbrev reads : ReadCalls
reads = record { opens = true; seeks = true; reads = 100 }

written : WritesWell writes 3 4
written = record {
  allocates = refl;
  opens_old = refl;
  reads_old = omega arith;
  seeks_end = refl;
  reallocates = refl;
  seeks_tail = refl;
  reads_tail = omega arith;
  opens_tmp = refl;
  writes = omega arith;
  syncs = refl;
  closes = refl;
  renames = refl;
}

config_read-config_write_example :
    let (success, ops) = config_write writes s files 1 2 (8 ∷ 9 ∷ []) in
    (success ≡ true)
    × (get_or (config_read reads s (replay ops files) 1 0 4) 3 0 ≡ (
        if 1 == 1 && (leb 2 3 && ltb 3 (2 + 2))
        then get_or (8 ∷ 9 ∷ []) 1 0
        else get_or (config_read reads s files 1 0 4) 3 0))
config_read-config_write_example =
    config_read-config_write dir before (omega arith) writes reads files 1 1 2 0 4 3 (8 ∷ 9 ∷ [])
      (omega arith) (omega arith) (omega arith) written
      (record { opens = refl; seeks = refl; reads = omega arith }) (omega arith)

-- A directory with paths that need no computing.
abbrev plain : CfgDir
plain = record { cfg_dir = dir; cfg_paths = λ i. dir; cfg_dir_set = true }

abbrev leap_day : RtcTimeAndDate
leap_day = record { year = 2024; month = 2; day = 29; hour = 12; minute = 30; second = 5; ms = 250 }

leap_day-IsDate : IsDate (civil leap_day)
unfolding days_in_month is_leap
leap_day-IsDate = record {
  year_in = omega arith;
  month_in = (omega arith, omega arith);
  day_in = (omega arith, omega arith);
  hour_in = omega arith;
  minute_in = omega arith;
  second_in = omega arith;
}

rtc_get-rtc_set_example :
    (seconds : ℕ) × (bm_rtc_set clock_set leap_day ≡ (bm_ok, some (seconds, 250 * 1000000)))
    × (bm_rtc_get (some (seconds, 250 * 1000000)) ≡ (bm_ok, some leap_day))
    × (bm_rtc_get_micro_seconds (some (seconds, 250 * 1000000))
        ≡ ((seconds * 1000000 + 250 * 1000) % 2 ^ 64, some leap_day))
rtc_get-rtc_set_example =
    rtc_get-rtc_set leap_day
      (record { date = leap_day-IsDate; year_in = omega arith; ms_in = omega arith })
