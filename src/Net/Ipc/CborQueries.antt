-- ===== src/Net/Ipc/CborQueries.antt =====
-- The queries of the CBOR library that src/net/gateway_ipc.cpp makes, and the library's value type,
-- as a parameter; `none` stands for any code other than CborNoError.
use bm_sbc.Prelude.{ℕ, Bool, Option, List, ℤ}

pub record Cbor : Type 1 where
  pub Value : Type 0
  pub Double : Type 0
  pub Float : Type 0
  -- `cbor_parser_init`: the root of a datagram.
  pub parse : List ℕ → Option Value
  pub is_map : Value → Bool
  pub map_find_value : Value → List ℕ → Option Value
  pub is_invalid : Value → Bool
  pub is_text_string : Value → Bool
  pub is_byte_string : Value → Bool
  pub is_boolean : Value → Bool
  pub is_integer : Value → Bool
  pub is_unsigned_integer : Value → Bool
  pub is_double : Value → Bool
  pub is_float : Value → Bool
  -- `cbor_value_copy_text_string` into that many bytes.
  pub copy_text_string : Value → ℕ → Option (List ℕ)
  pub get_string_length : Value → Option ℕ
  -- The chunk that a fresh iteration over a byte string begins with.
  pub first_chunk : Value → Option (List ℕ)
  pub get_boolean : Value → Option Bool
  pub get_int : Value → ℤ
  pub get_uint64 : Value → ℕ
  pub get_int64 : Value → ℤ
  pub get_double : Value → Double
  pub get_float : Value → Float
  -- The conversions of the language between the two.
  pub widen : Float → Double
  pub narrow : Double → Float
