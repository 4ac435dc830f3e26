-- ===== src/Net/Ipc/Keys.antt =====
-- The texts and sizes of src/net/gateway_ipc.cpp.
use bm_sbc.Prelude.{ℕ, ◌+◌, List, [], ◌∷◌}

abbrev pub replay_caught_up_text : List ℕ
replay_caught_up_text =
    b'r' ∷ b'e' ∷ b'p' ∷ b'l' ∷ b'a' ∷ b'y' ∷ b'_' ∷ b'c' ∷ b'a' ∷ b'u' ∷ b'g' ∷ b'h' ∷ b't' ∷ b'_'
    ∷ b'u' ∷ b'p' ∷ []

abbrev pub spotter_log_text : List ℕ
spotter_log_text = b's' ∷ b'p' ∷ b'o' ∷ b't' ∷ b't' ∷ b'e' ∷ b'r' ∷ b'_' ∷ b'l' ∷ b'o' ∷ b'g' ∷ []

abbrev pub spotter_tx_text : List ℕ
spotter_tx_text = b's' ∷ b'p' ∷ b'o' ∷ b't' ∷ b't' ∷ b'e' ∷ b'r' ∷ b'_' ∷ b't' ∷ b'x' ∷ []

abbrev pub sensor_data_text : List ℕ
sensor_data_text = b's' ∷ b'e' ∷ b'n' ∷ b's' ∷ b'o' ∷ b'r' ∷ b'_' ∷ b'd' ∷ b'a' ∷ b't' ∷ b'a' ∷ []

abbrev pub config_set_text : List ℕ
config_set_text = b'c' ∷ b'o' ∷ b'n' ∷ b'f' ∷ b'i' ∷ b'g' ∷ b'_' ∷ b's' ∷ b'e' ∷ b't' ∷ []

abbrev pub v_text : List ℕ
v_text = b'v' ∷ []

abbrev pub type_text : List ℕ
type_text = b't' ∷ b'y' ∷ b'p' ∷ b'e' ∷ []

abbrev pub data_text : List ℕ
data_text = b'd' ∷ b'a' ∷ b't' ∷ b'a' ∷ []

abbrev pub file_name_text : List ℕ
file_name_text = b'f' ∷ b'i' ∷ b'l' ∷ b'e' ∷ b'_' ∷ b'n' ∷ b'a' ∷ b'm' ∷ b'e' ∷ []

abbrev pub print_timestamp_text : List ℕ
print_timestamp_text =
    b'p' ∷ b'r' ∷ b'i' ∷ b'n' ∷ b't' ∷ b'_' ∷ b't' ∷ b'i' ∷ b'm' ∷ b'e' ∷ b's' ∷ b't' ∷ b'a' ∷ b'm'
    ∷ b'p' ∷ []

abbrev pub iridium_fallback_text : List ℕ
iridium_fallback_text =
    b'i' ∷ b'r' ∷ b'i' ∷ b'd' ∷ b'i' ∷ b'u' ∷ b'm' ∷ b'_' ∷ b'f' ∷ b'a' ∷ b'l' ∷ b'l' ∷ b'b' ∷ b'a'
    ∷ b'c' ∷ b'k' ∷ []

abbrev pub topic_suffix_text : List ℕ
topic_suffix_text =
    b't' ∷ b'o' ∷ b'p' ∷ b'i' ∷ b'c' ∷ b'_' ∷ b's' ∷ b'u' ∷ b'f' ∷ b'f' ∷ b'i' ∷ b'x' ∷ []

abbrev pub config_key_text : List ℕ
config_key_text = b'c' ∷ b'o' ∷ b'n' ∷ b'f' ∷ b'i' ∷ b'g' ∷ b'_' ∷ b'k' ∷ b'e' ∷ b'y' ∷ []

abbrev pub config_value_text : List ℕ
config_value_text =
    b'c' ∷ b'o' ∷ b'n' ∷ b'f' ∷ b'i' ∷ b'g' ∷ b'_' ∷ b'v' ∷ b'a' ∷ b'l' ∷ b'u' ∷ b'e' ∷ []

-- IPC_RECV_BUF_BYTES, MAX_TOPIC_LEN, MAX_FILE_NAME_LEN, MAX_LOG_LINE_LEN, SENSOR_TOPIC_PREFIX_LEN.
abbrev pub recv_buf_bytes : ℕ
recv_buf_bytes = 4096

abbrev pub max_topic_len : ℕ
max_topic_len = 255

abbrev pub max_file_name_len : ℕ
max_file_name_len = 63

abbrev pub max_log_line_len : ℕ
max_log_line_len = 1024

abbrev pub sensor_topic_prefix_len : ℕ
sensor_topic_prefix_len = 7 + 16 + 1

abbrev pub sensor_text : List ℕ
sensor_text = b's' ∷ b'e' ∷ b'n' ∷ b's' ∷ b'o' ∷ b'r' ∷ b'/' ∷ []
