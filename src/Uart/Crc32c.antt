-- ===== src/Uart/Crc32c.antt =====
-- src/transports/uart_l2/crc32c.c and crc32c.h.
pub mod Xor
pub mod Reference
pub mod Detection
use Prim.Native.Nat.{bit_and, bit_xor}
use bm_sbc.Prelude.{ℕ, ◌/◌, ◌≡◌, refl, List, [], ◌∷◌, get_or}

-- The nibble table.
abbrev pub table : List ℕ
table =
    0x00000000 ∷ 0x105EC76F ∷ 0x20BD8EDE ∷ 0x30E349B1 ∷ 0x417B1DBC ∷ 0x5125DAD3 ∷ 0x61C69362
    ∷ 0x7198540D ∷ 0x82F63B78 ∷ 0x92A8FC17 ∷ 0xA24BB5A6 ∷ 0xB21572C9 ∷ 0xC38D26C4 ∷ 0xD3D3E1AB
    ∷ 0xE330A81A ∷ 0xF36E6F75 ∷ []

-- `crc = (crc >> 4) ^ table[(crc ^ x) & 0x0F]`. The mask keeps the index within the table.
pub nibble_step : ℕ → ℕ → ℕ
nibble_step crc x = bit_xor (crc / 16) (get_or table (bit_and (bit_xor crc x) 0x0F) 0)

-- The body of the loop: the low half of the byte, then the high one.
pub byte_step : ℕ → ℕ → ℕ
byte_step crc x = nibble_step (nibble_step crc x) (x / 16)

-- `crc32c_update`.
pub update : ℕ → List ℕ → ℕ
update crc [] = crc
update crc (x ∷ xs) = update (byte_step crc x) xs

-- `crc32c_finalize`.
pub finalize : ℕ → ℕ
finalize crc = bit_xor crc 0xFFFFFFFF

-- `crc32c`.
pub crc32c : List ℕ → ℕ
crc32c xs = finalize (update 0xFFFFFFFF xs)

abbrev check_input : List ℕ
check_input = b'1' ∷ b'2' ∷ b'3' ∷ b'4' ∷ b'5' ∷ b'6' ∷ b'7' ∷ b'8' ∷ b'9' ∷ []

-- The published check value of CRC-32C.
check_value : crc32c check_input ≡ 0xE3069283
unfolding crc32c update finalize byte_step nibble_step
check_value = refl
