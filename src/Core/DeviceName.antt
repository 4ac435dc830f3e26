-- ===== src/Core/DeviceName.antt =====
-- read_device_name of src/core/runtime.cpp.
use bm_sbc.Prelude.{
  ℕ, Bool, true, false, Option, none, some, List, [], ◌∷◌, ◌++◌, ltb, ◌==◌, ◌&&◌, ◌||◌,
  if◌then◌else◌, length, take, drop, is_empty, starts_with,
}
use bm_sbc.Net.VirtualPort.SockPath.{hex_digits}
use bm_sbc.Core.Number.{skip_space, strtoull}

-- `strstr(line, text)`.
pub contains_text : List ℕ → List ℕ → Bool
contains_text text [] = starts_with text []
contains_text text (c ∷ cs) = starts_with text (c ∷ cs) || contains_text text cs

abbrev pub serial_text : List ℕ
serial_text = b'S' ∷ b'e' ∷ b'r' ∷ b'i' ∷ b'a' ∷ b'l' ∷ []

abbrev pub model_text : List ℕ
model_text = b'M' ∷ b'o' ∷ b'd' ∷ b'e' ∷ b'l' ∷ []

abbrev pub pi_text : List ℕ
pi_text = b'R' ∷ b'a' ∷ b's' ∷ b'p' ∷ b'b' ∷ b'e' ∷ b'r' ∷ b'r' ∷ b'y' ∷ b' ' ∷ b'P' ∷ b'i' ∷ []

abbrev pub rpi_text : List ℕ
rpi_text = b'r' ∷ b'p' ∷ b'i' ∷ b'_' ∷ []

-- The number behind the colon, as %llx reads it.
abbrev pub hex_at : List ℕ → Option ℕ
hex_at cs = if ltb (length (strtoull 16 cs).1) (length cs) then some (strtoull 16 cs).0 else none

abbrev pub behind_colon : List ℕ → Option ℕ
behind_colon [] = none
behind_colon (c ∷ cs) = if c == b':' then hex_at (skip_space cs) else none

-- `sscanf(line, "Serial : %llx", &serial) == 1`.
pub scan_serial : List ℕ → Option ℕ
scan_serial line =
    if starts_with serial_text line then behind_colon (skip_space (drop 6 line)) else none

-- %llx: no leading zeros.
pub drop_zeros : List ℕ → List ℕ
drop_zeros [] = b'0' ∷ []
drop_zeros (c ∷ []) = c ∷ []
drop_zeros (c ∷ d ∷ cs) = let rest = drop_zeros (d ∷ cs) in if c == b'0' then rest else c ∷ d ∷ cs

pub record Found : Type 0 where
  pub serial_str : List ℕ
  pub is_rpi : Bool

abbrev pub see : Option ℕ → Bool → Found → Found
see (some serial) is_model f = record f { serial_str = drop_zeros (hex_digits 16 serial) }
see none is_model f = if is_model then record f { is_rpi = true } else f

-- The loop over the lines, which `fgets` cuts at 127 characters.
pub scan_lines : List (List ℕ) → Found → Found
scan_lines [] f = f
scan_lines (line ∷ lines) f =
    scan_lines lines
      (see (scan_serial line) (contains_text model_text line && contains_text pi_text line) f)

-- `read_device_name`: the lines of /proc/cpuinfo, if it opens, and BM_SBC_DEVICE_NAME.
pub read_device_name : Option (List (List ℕ)) → List ℕ → List ℕ
read_device_name none default = default
read_device_name (some lines) default =
    let f = scan_lines lines (record { serial_str = []; is_rpi = false }) in
    if is_empty f.serial_str
    then default
    else take 31 ((if f.is_rpi then rpi_text else []) ++ f.serial_str)
