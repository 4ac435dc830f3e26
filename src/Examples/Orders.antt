-- ===== src/Examples/Orders.antt =====
-- The orders of local programs: src/net/gateway_ipc.cpp.
use bm_sbc.Prelude.{
  ℕ, ◌+◌, ◌≡◌, inr, refl, Bool, true, false, Option, none, some, List, [], ◌∷◌, leb, ◌==◌,
  if◌then◌else◌, length, same_text, All, pos, arith,
}
use bm_sbc.Net.Ipc.CborQueries.{Cbor}
use bm_sbc.Net.Ipc.{
  Stack, dispatch, handle_config_set, v_text, type_text, data_text, config_value_text,
  sensor_data_text,
}
use bm_sbc.Net.Ipc.Config.{CopiesWhole, SetsOne, handle_config_set-SetsOne}
use bm_sbc.Net.Ipc.Dispatch.{ViewsDatagram, CallFits, dispatch-CallFits}
use bm_sbc.Net.Ipc.PowerOff.{
  PowerOffTask, PowerEvent, Round, Attempt, replied, wait_loop, request_power_off,
}
use bm_sbc.Net.Ipc.PowerOff.Retries.{requests, StopsAt, request_power_off_lem}

-- Values of a library that reads every datagram as a report of a sensor, the datagram being the data.
data Item : Type 0 where
  report text chunk : List ℕ → Item
  number : ℕ → Item

abbrev is_report : Item → Bool
is_report (report bs) = true
is_report (text cs) = false
is_report (chunk bs) = false
is_report (number n) = false

abbrev is_text : Item → Bool
is_text (report bs) = false
is_text (text cs) = true
is_text (chunk bs) = false
is_text (number n) = false

abbrev is_chunk : Item → Bool
is_chunk (report bs) = false
is_chunk (text cs) = false
is_chunk (chunk bs) = true
is_chunk (number n) = false

abbrev is_number : Item → Bool
is_number (report bs) = false
is_number (text cs) = false
is_number (chunk bs) = false
is_number (number n) = true

abbrev field : Item → List ℕ → Option Item
field (report bs) key =
    if same_text key v_text
    then some (number 1)
    else if same_text key type_text
    then some (text sensor_data_text)
    else if same_text key data_text
    then some (chunk bs)
    else if same_text key config_value_text
    then some (number 42)
    else some (text (b't' ∷ []))
field (text cs) key = none
field (chunk bs) key = none
field (number n) key = none

abbrev text_in : Item → ℕ → Option (List ℕ)
text_in (report bs) n = none
text_in (text cs) n = if leb (length cs) n then some cs else none
text_in (chunk bs) n = none
text_in (number k) n = none

abbrev chunk_in : Item → Option (List ℕ)
chunk_in (report bs) = none
chunk_in (text cs) = none
chunk_in (chunk bs) = if leb (length bs) 4096 then some bs else none
chunk_in (number k) = none

abbrev value_in : Item → ℕ
value_in (report bs) = 0
value_in (text cs) = 0
value_in (chunk bs) = 0
value_in (number n) = n

abbrev library : Cbor
library = record {
  Value = Item;
  Double = ℕ;
  Float = ℕ;
  parse = λ buf. some (report buf);
  is_map = is_report;
  map_find_value = field;
  is_invalid = λ v. false;
  is_text_string = is_text;
  is_byte_string = is_chunk;
  is_boolean = λ v. false;
  is_integer = is_number;
  is_unsigned_integer = is_number;
  is_double = λ v. false;
  is_float = λ v. false;
  copy_text_string = text_in;
  get_string_length = λ v. none;
  first_chunk = chunk_in;
  get_boolean = λ v. none;
  get_int = λ v. pos (value_in v);
  get_uint64 = value_in;
  get_int64 = λ v. pos (value_in v);
  get_double = value_in;
  get_float = value_in;
  widen = λ f. f;
  narrow = λ d. d;
}

copies : CopiesWhole library
copies (report bs) n cs e = cc
copies (text ts) n cs e = ground arith
copies (chunk bs) n cs e = cc
copies (number k) n cs e = cc

views : ViewsDatagram library
views (report bs) bytes e = cc
views (text cs) bytes e = cc
views (chunk bs) bytes e = ground arith
views (number k) bytes e = cc

abbrev stack : Stack
stack = record { max_key_len_bytes = 32; max_config_buffer_size_bytes = 50; set_config_ok = true }

dispatch-CallFits_example : All (CallFits library stack 5) (dispatch library stack 5 (1 ∷ 2 ∷ []))
dispatch-CallFits_example = dispatch-CallFits library stack 5 copies views (1 ∷ 2 ∷ [])

handle_config_set-SetsOne_example :
    SetsOne library stack (handle_config_set library stack (report []))
handle_config_set-SetsOne_example = handle_config_set-SetsOne library stack copies (report [])

-- Two timeouts, then an acknowledgement.
abbrev attempt : ℕ → Attempt
attempt j = replied (leb 2 j) 0

stops : StopsAt attempt 2
stops = (λ j h. ground arith, inr (omega arith, refl))

abbrev task : PowerOffTask
task = record { handle = none; queue = some 1; request_retry = 0 }

abbrev exited : Round
exited = record { is_active = some []; status = some (b'S' ∷ b'=' ∷ b'0' ∷ []) }

request_power_off_lem_example :
    (wait_loop 1 (exited ∷ []) ≡ none → request_power_off 5 (exited ∷ []) attempt task ≡ none)
    × ((n : ℕ)
        → wait_loop 1 (exited ∷ []) ≡ some n
        → (events : List PowerEvent) × (request_power_off 5 (exited ∷ []) attempt task
            ≡ some (record { handle = none; queue = none; request_retry = 2 }, events, 2 == 31))
          × (requests events ≡ (if 2 == 31 then 31 else 2 + 1)))
request_power_off_lem_example = request_power_off_lem 5 (exited ∷ []) attempt task 2 stops refl
