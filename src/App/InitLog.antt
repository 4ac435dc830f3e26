-- ===== src/App/InitLog.antt =====
-- apps/gateway/app_main.cpp: the mote's configuration, a CBOR map, written to a file. What the CBOR
-- library yields, call by call, is an input, and so is the text of a float.
pub mod Atomic
use bm_sbc.Prelude.{
  ℕ, zero, suc, ◌+◌, ◌/◌, ◌%◌, Bool, true, false, not, Option, none, some, List, [], ◌∷◌, ◌++◌, ltb,
  ◌==◌, ◌&&◌, ◌||◌, if◌then◌else◌, c_string, take,
}
use bm_sbc.Net.VirtualPort.SockPath.{hex_digits}
use bm_sbc.Platform.Files.{FilePath, Files, FileOp, put, remove, move}

-- A value of the map with what the call that reads it gives; `none` is an error of that call. The
-- negative numbers are -(n + 1).
pub data CborValue : Type 0 where
  unsigned negative : Option ℕ → CborValue
  float_text double_text : Option (List ℕ) → CborValue
  text_string byte_string : Option (List ℕ) → CborValue
  other : CborValue

-- %llu, by the digits from the last on.
pub decimal : ℕ → ℕ → List ℕ
decimal zero n = []
decimal (suc fuel) n =
    let front = decimal fuel (n / 10) in (if ltb n 10 then [] else front) ++ (b'0' + n % 10) ∷ []

abbrev pub hex_bytes : List ℕ → List ℕ
hex_bytes [] = []
hex_bytes (b ∷ bytes) = hex_digits 2 b ++ hex_bytes bytes

-- `write_cbor_value`: what is printed, or `none` where false is returned. A number of 64 bits has at
-- most 20 digits.
pub write_cbor_value : CborValue → Option (List ℕ)
unfolding decimal
write_cbor_value (unsigned none) = none
write_cbor_value (unsigned (some u)) = some (decimal 20 u)
write_cbor_value (negative none) = none
write_cbor_value (negative (some n)) = some (b'-' ∷ decimal 20 (n + 1))
write_cbor_value (float_text text) = text
write_cbor_value (double_text text) = text
write_cbor_value (text_string none) = none
write_cbor_value (text_string (some text)) = some (c_string text)
write_cbor_value (byte_string none) = none
write_cbor_value (byte_string (some bytes)) = some (hex_bytes bytes)
write_cbor_value other = none

-- A round of the loop over the map: whether the key is a text, the key as it is copied, and whether the
-- two calls of `cbor_value_advance` succeed.
pub record Entry : Type 0 where
  pub is_text : Bool
  pub key : Option (List ℕ)
  pub advances : Bool
  pub value : CborValue
  pub advances_again : Bool

abbrev pub unsupported_text : List ℕ
unsupported_text =
    b'(' ∷ b'u' ∷ b'n' ∷ b's' ∷ b'u' ∷ b'p' ∷ b'p' ∷ b'o' ∷ b'r' ∷ b't' ∷ b'e' ∷ b'd' ∷ b')' ∷ []

abbrev pub or_unsupported : Option (List ℕ) → List ℕ
or_unsupported none = unsupported_text
or_unsupported (some text) = text

abbrev pub line_end : List ℕ
line_end = 13 ∷ 10 ∷ []

abbrev pub entry_line : List ℕ → CborValue → List ℕ
entry_line key value =
    c_string key ++ (b':' ∷ b' ' ∷ (or_unsupported (write_cbor_value value) ++ line_end))

-- The loop: whether `ok` is still true, and what has been printed.
pub print_entries : List Entry → Bool × List ℕ
unfolding write_cbor_value
print_entries [] = (true, [])
print_entries (e ∷ entries) =
    let (ok, later) = print_entries entries in
    elim e.key [
      | none ↦ (false, [])
      | some key ↦
          if not (e.is_text && e.advances)
          then (false, [])
          else if not e.advances_again
          then (false, entry_line key e.value)
          else (ok, entry_line key e.value ++ later)
    ]

-- INIT_LOG_PATH, its temporary file, and BACKUP_INIT_LOG_PATH.
pub record Paths : Type 0 where
  pub init_log : FilePath
  pub tmp : FilePath
  pub backup : FilePath

-- How `copy_file` with `overwrite_existing` ends: with the whole copy, or with an exception, before the
-- target is touched (`none`) or when it is emptied and holds that many of the bytes.
pub data Copy : Type 0 where
  completes : Copy
  throws : Option ℕ → Copy

abbrev pub copy_file : Copy → FilePath → List ℕ → List FileOp
copy_file completes to text = put to [] ∷ put to text ∷ []
copy_file (throws none) to text = []
copy_file (throws (some n)) to text = put to [] ∷ put to (take n text) ∷ []

-- What the calls return. `written` is what of the text `fprintf` and `fputs`, whose results are not
-- looked at, leave in the file.
pub record WriteCalls : Type 0 where
  pub is_map : Bool
  pub opens : Bool
  pub enters : Bool
  pub written : List ℕ → List ℕ
  pub closes : Bool
  pub renames : Bool
  pub copies : Copy

-- `thrown` is an exception that no one catches.
pub data Outcome : Type 0 where
  returned : Bool → Outcome
  thrown : Outcome

abbrev pub app_text : List ℕ
app_text = b'a' ∷ b'p' ∷ b'p' ∷ b':' ∷ b' ' ∷ []

-- What is printed in all, and whether `ok` holds in the end.
pub print_all : WriteCalls → List ℕ → List Entry → Bool × List ℕ
print_all c app_name entries =
    let (ok, lines) = if c.enters then print_entries entries else (false, []) in
    (ok && c.closes, app_text ++ (c_string app_name ++ (line_end ++ lines)))

-- What `save_init_backup` or `restore_backup` comes to.
abbrev pub after_copy : Copy → Outcome
after_copy completes = returned true
after_copy (throws n) = thrown

-- `write_init_log_file`.
pub write_init_log_file : WriteCalls → Paths → List ℕ → List Entry → Outcome × List FileOp
write_init_log_file c p app_name entries =
    let (ok, printed) = print_all c app_name entries in
    let text = c.written printed in
    let puts = put p.tmp [] ∷ put p.tmp text ∷ [] in
    if not c.is_map
    then (returned false, [])
    else if not c.opens
    then (returned false, [])
    else if not ok
    then (returned false, puts ++ remove p.tmp ∷ [])
    else if not c.renames
    then (returned false, puts ++ remove p.tmp ∷ [])
    else (after_copy c.copies, puts ++ (move p.tmp p.init_log ∷ copy_file c.copies p.backup text))

-- `restore_backup`, for where no reply comes at all.
abbrev pub restored : Copy → Paths → Option (List ℕ) → Outcome × List FileOp
restored copies p none = (returned false, [])
restored copies p (some bytes) = (after_copy copies, copy_file copies p.init_log bytes)

unfoldable pub restore_backup : Copy → Paths → Files → Outcome × List FileOp
restore_backup copies p fs = restored copies p (fs p.backup)

-- A reply of the service; `none` is a request that is not acknowledged, and a reply that does not
-- decode has no `entries`.
pub record MapReply : Type 0 where
  pub decodes : Bool
  pub success : Bool
  pub has_data : Bool
  pub map_len : ℕ
  pub entries : List Entry

-- `config_map_reply_cb`: whether `config_map_received` is set and true returned.
unfoldable pub config_map_reply_cb :
    WriteCalls → Paths → List ℕ → Option MapReply → Outcome × List FileOp
unfolding write_init_log_file
config_map_reply_cb c p app_name none = (returned false, [])
config_map_reply_cb c p app_name (some r) =
    if not r.decodes
    then (returned false, [])
    else if not r.success || (not r.has_data || r.map_len == 0)
    then (returned false, [])
    else write_init_log_file c p app_name r.entries
