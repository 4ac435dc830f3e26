-- ===== src/Net/Ipc.antt =====
-- src/net/gateway_ipc.cpp: the socket on which local programs give the gateway its orders. A handler
-- gives the calls it makes on the rest of the stack, in order; `parameters` are sizes and results of
-- code outside the repository.
mod Keys
pub mod CborQueries
pub mod PowerOff
pub mod Socket
pub mod Sensor
pub mod Config
pub mod Dispatch
pub use Keys.*
use CborQueries.{Cbor}
use bm_sbc.Prelude.{
  ℕ, ◌+◌, ◌-◌, ◌%◌, ◌^◌, Bool, false, not, Option, none, some, List, [], ◌∷◌, ◌++◌, ltb, ◌==◌, ◌||◌,
  if◌then◌else◌, length, get_or, c_string, same_text, ℤ, pos, negsuc, in_int32,
}
use bm_sbc.Net.VirtualPort.SockPath.{hex_digits}

-- SENSOR_TOPIC_PREFIX_FMT.
pub topic_prefix : ℕ → List ℕ
topic_prefix mote_node_id = sensor_text ++ (hex_digits 16 mote_node_id ++ b'/' ∷ [])

-- MAX_KEY_LEN_BYTES and MAX_CONFIG_BUFFER_SIZE_BYTES of the stack, and the results of
-- `set_config_*`.
pub record Stack : Type 0 where
  pub max_key_len_bytes : ℕ
  pub max_config_buffer_size_bytes : ℕ
  pub set_config_ok : Bool

module _ (c : Cbor) where
  -- The calls on the stack: `spotter_log` (the file name is `none` for a null pointer),
  -- `spotter_tx_data`, `bm_pub`, `set_config_*`, `save_config`; and the request to power off.
  pub data IpcCall : Type 0 where
    spotter_log : Option (List ℕ) → Bool → List ℕ → IpcCall
    spotter_tx_data : List ℕ → ℕ → Bool → IpcCall
    bm_pub : List ℕ → List ℕ → ℕ → IpcCall
    set_config_string : List ℕ → List ℕ → IpcCall
    set_config_uint : List ℕ → ℕ → IpcCall
    set_config_int : List ℕ → ℤ → IpcCall
    set_config_float : List ℕ → c.Float → IpcCall
    save_config replay_caught_up : IpcCall

  abbrev pub text_of : ℕ → Option c.Value → Option (List ℕ)
  text_of cap none = none
  text_of cap (some v) = if not (c.is_text_string v) then none else c.copy_text_string v cap

  -- `cbor_get_text` into a buffer of `out_cap` bytes.
  unfoldable pub cbor_get_text : c.Value → List ℕ → ℕ → Option (List ℕ)
  cbor_get_text m key out_cap = text_of (out_cap - 1) (c.map_find_value m key)

  -- `cbor_get_bool`.
  pub cbor_get_bool : c.Value → List ℕ → Option Bool
  cbor_get_bool m key = elim (c.map_find_value m key) [
    | none ↦ none
    | some v ↦ if not (c.is_boolean v) then none else c.get_boolean v
  ]

  abbrev pub bytes_of : Option c.Value → Option (List ℕ)
  bytes_of none = none
  bytes_of (some v) = if not (c.is_byte_string v) then none else c.first_chunk v

  -- `cbor_get_bytes_view`.
  pub cbor_get_bytes_view : c.Value → List ℕ → Option (List ℕ)
  cbor_get_bytes_view m key = bytes_of (c.map_find_value m key)

  -- A variable that is false unless the query sets it.
  abbrev pub or_false : Option Bool → Bool
  or_false none = false
  or_false (some b) = b

  abbrev pub string_of : Option (List ℕ) → Option (List ℕ)
  string_of none = none
  string_of (some cs) = some (c_string cs)

  -- `handle_spotter_log`, once the text is read.
  abbrev pub log_text : Option (List ℕ) → Option (List ℕ) → Bool → List IpcCall
  log_text none file_name print_timestamp = []
  log_text (some text) file_name print_timestamp =
      if length text == 0 then [] else spotter_log file_name print_timestamp (c_string text) ∷ []

  pub handle_spotter_log : c.Value → List IpcCall
  handle_spotter_log m =
      log_text (cbor_get_text m data_text (max_log_line_len + 1))
        (string_of (cbor_get_text m file_name_text (max_file_name_len + 1)))
        (or_false (cbor_get_bool m print_timestamp_text))

  -- `handle_spotter_tx`: the data, its length as a 16-bit number, and whether Iridium is allowed.
  abbrev pub transmit : Option (List ℕ) → Bool → List IpcCall
  transmit none iridium_fallback = []
  transmit (some bytes) iridium_fallback =
      if length bytes == 0
      then []
      else spotter_tx_data bytes (length bytes % 2 ^ 16) iridium_fallback ∷ []

  pub handle_spotter_tx : c.Value → List IpcCall
  handle_spotter_tx m =
      transmit (cbor_get_bytes_view m data_text) (or_false (cbor_get_bool m iridium_fallback_text))

  -- `handle_sensor_data`.
  pub publish : ℕ → List ℕ → Option (List ℕ) → List IpcCall
  publish mote_node_id topic_suffix none = []
  publish mote_node_id topic_suffix (some bytes) =
      bm_pub (c_string (topic_prefix mote_node_id ++ topic_suffix)) bytes (length bytes % 2 ^ 16)
      ∷ []

  abbrev pub report : ℕ → Option (List ℕ) → Option (List ℕ) → List IpcCall
  report mote_node_id none view = []
  report mote_node_id (some topic_suffix) view =
      if length topic_suffix == 0
      then []
      else if get_or topic_suffix 0 0 == b'/'
      then []
      else if ltb max_topic_len (sensor_topic_prefix_len + length topic_suffix)
      then []
      else if not (length (topic_prefix mote_node_id) == sensor_topic_prefix_len)
      then []
      else publish mote_node_id topic_suffix view

  pub handle_sensor_data : ℕ → c.Value → List IpcCall
  handle_sensor_data mote_node_id m =
      report mote_node_id (cbor_get_text m topic_suffix_text (max_topic_len + 1))
        (cbor_get_bytes_view m data_text)

  -- MAX_IPC_CONFIG_STR_BYTES.
  abbrev pub max_ipc_config_str_bytes : Stack → ℕ
  max_ipc_config_str_bytes k = k.max_config_buffer_size_bytes - 2

  -- `apply_config_string`, `_uint`, `_int`, `_float`: the call of `set_config_*`, if it comes to that.
  pub apply_config_string : Stack → List ℕ → c.Value → Option IpcCall
  apply_config_string k key v = elim (c.get_string_length v) [
    | none ↦ none
    | some str_len ↦
        if ltb (max_ipc_config_str_bytes k) str_len
        then none
        else elim (c.copy_text_string v (max_ipc_config_str_bytes k)) [
          | none ↦ none
          | some value ↦ some (set_config_string key value)
        ]
  ]

  pub apply_config_uint : List ℕ → c.Value → Option IpcCall
  apply_config_uint key v =
      if ltb 4294967295 (c.get_uint64 v) then none else some (set_config_uint key (c.get_uint64 v))

  pub apply_config_int : List ℕ → c.Value → Option IpcCall
  apply_config_int key v =
      if in_int32 (c.get_int64 v) then some (set_config_int key (c.get_int64 v)) else none

  pub apply_config_float : List ℕ → c.Value → Option IpcCall
  apply_config_float key v =
      if c.is_double v
      then some (set_config_float key (c.narrow (c.get_double v)))
      else some (set_config_float key (c.narrow (c.widen (c.get_float v))))

  pub apply_config : Stack → List ℕ → c.Value → Option IpcCall
  apply_config k key v =
      if c.is_text_string v
      then apply_config_string k key v
      else if c.is_unsigned_integer v
      then apply_config_uint key v
      else if c.is_integer v
      then apply_config_int key v
      else if c.is_double v || c.is_float v
      then apply_config_float key v
      else none

  -- `if (!ok) return; save_config(...)`.
  abbrev pub save : Stack → Option IpcCall → List IpcCall
  save k none = []
  save k (some set) = set ∷ (if k.set_config_ok then save_config ∷ [] else [])

  abbrev pub apply_and_save : Stack → List ℕ → Option c.Value → List IpcCall
  apply_and_save k key none = []
  apply_and_save k key (some v) = if c.is_invalid v then [] else save k (apply_config k key v)

  -- `handle_config_set`.
  pub handle_config_set : Stack → c.Value → List IpcCall
  handle_config_set k m = elim (cbor_get_text m config_key_text (k.max_key_len_bytes + 1)) [
    | none ↦ []
    | some key ↦
        if length key == 0 then [] else apply_and_save k key (c.map_find_value m config_value_text)
  ]

  abbrev pub is_version_1 : ℤ → Bool
  is_version_1 (pos n) = n == 1
  is_version_1 (negsuc n) = false

  -- The handler for a type.
  pub handle : Stack → ℕ → c.Value → List ℕ → List IpcCall
  handle k mote_node_id m type =
      if same_text type replay_caught_up_text
      then replay_caught_up ∷ []
      else if same_text type spotter_log_text
      then handle_spotter_log m
      else if same_text type spotter_tx_text
      then handle_spotter_tx m
      else if same_text type sensor_data_text
      then handle_sensor_data mote_node_id m
      else if same_text type config_set_text
      then handle_config_set k m
      else []

  abbrev pub handle_type : Stack → ℕ → c.Value → Option (List ℕ) → List IpcCall
  handle_type k mote_node_id m none = []
  handle_type k mote_node_id m (some type) =
      if length type == 0 then [] else handle k mote_node_id m (c_string type)

  abbrev pub handle_version : Stack → ℕ → c.Value → Option c.Value → List IpcCall
  handle_version k mote_node_id m none = []
  handle_version k mote_node_id m (some v_field) =
      if not (c.is_integer v_field)
      then []
      else if not (is_version_1 (c.get_int v_field))
      then []
      else handle_type k mote_node_id m (cbor_get_text m type_text 32)

  abbrev pub handle_root : Stack → ℕ → Option c.Value → List IpcCall
  handle_root k mote_node_id none = []
  handle_root k mote_node_id (some root) =
      if not (c.is_map root)
      then []
      else handle_version k mote_node_id root (c.map_find_value root v_text)

  -- `dispatch`.
  pub dispatch : Stack → ℕ → List ℕ → List IpcCall
  dispatch k mote_node_id buf = handle_root k mote_node_id (c.parse buf)
