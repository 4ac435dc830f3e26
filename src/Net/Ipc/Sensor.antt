-- ===== src/Net/Ipc/Sensor.antt =====
-- The topics on which `handle_sensor_data` publishes.
use bm_sbc.Prelude.{
  ℕ, ◌%◌, ◌^◌, ◌≤◌, ◌<◌, ◌≡◌, ◌≢◌, ◌⊎◌, refl, sym, ◌∙◌, none, some, List, [], ◌∷◌, ◌++◌, length,
  length-append, get_or, All-append, NoZero, c_string, arith,
}
use bm_sbc.Net.VirtualPort.SockPath.{
  hex_digits, hex_digits-NoZero, length-hex_digits, append_split, hex_digits_injective,
}
use bm_sbc.Net.Ipc.CborQueries.{Cbor}
use bm_sbc.Net.Ipc.{
  bm_pub, cbor_get_text, cbor_get_bytes_view, topic_suffix_text, data_text, sensor_text,
  topic_prefix, max_topic_len, sensor_topic_prefix_len, publish, report, handle_sensor_data,
}

pub length-topic_prefix :
    (mote_node_id : ℕ) → length (topic_prefix mote_node_id) ≡ sensor_topic_prefix_len
unfolding topic_prefix
length-topic_prefix mote_node_id = omega (
  arith,
  length-append sensor_text (hex_digits 16 mote_node_id ++ b'/' ∷ []),
  length-append (hex_digits 16 mote_node_id) (b'/' ∷ []),
  length-hex_digits 16 mote_node_id,
)

-- Two nodes with different 64-bit identities never publish on the same topic, and neither do two
-- different suffixes of one node.
pub topic_injective :
    (a b : ℕ) (suffix_a suffix_b : List ℕ)
    → a < 2 ^ 64
    → b < 2 ^ 64
    → topic_prefix a ++ suffix_a ≡ topic_prefix b ++ suffix_b
    → (a ≡ b) × (suffix_a ≡ suffix_b)
unfolding topic_prefix
topic_injective a b suffix_a suffix_b p q e =
    let parts =
      append_split (topic_prefix a) (topic_prefix b) _ _
        (length-topic_prefix a ∙ sym (length-topic_prefix b)) e in
    let names = append_split sensor_text sensor_text _ _ refl parts.0 in
    let digits =
      append_split (hex_digits 16 a) (hex_digits 16 b) _ _
        (length-hex_digits 16 a ∙ sym (length-hex_digits 16 b)) names.1 in
    (hex_digits_injective 16 a b p q digits.0, parts.1)

topic_prefix-NoZero : (mote_node_id : ℕ) → NoZero (topic_prefix mote_node_id)
unfolding topic_prefix
topic_prefix-NoZero mote_node_id =
    All-append (λ c. 0 < c) sensor_text (hex_digits 16 mote_node_id ++ b'/' ∷ [])
      (
        omega arith,
        (
          omega arith,
          (omega arith, (omega arith, (omega arith, (omega arith, (omega arith, tt))))),
        ),
      )
      (All-append (λ c. 0 < c) (hex_digits 16 mote_node_id) (b'/' ∷ [])
        (hex_digits-NoZero 16 mote_node_id) (omega arith, tt))

c_string-NoZero : (cs : List ℕ) → NoZero cs → c_string cs ≡ cs
c_string-NoZero [] h = refl
c_string-NoZero (c ∷ cs) h = ground (arith, c_string-NoZero cs h.1)

module _ (c : Cbor) (mote_node_id : ℕ) (m : c.Value) (suffix : List ℕ)
    (e : cbor_get_text c m topic_suffix_text 256 ≡ some suffix) where
  -- A report of a sensor with a suffix without zero bytes. If the suffix is not empty, does not begin
  -- with a slash and leaves the topic at most 255 bytes, then the data, where there is some, is
  -- published once, on the topic "sensor/", the node in 16 hexadecimal digits, "/" and the suffix.
  -- With any other suffix, and without data, nothing is published.
  pub handle_sensor_data_lem :
      NoZero suffix
      → ((bytes : List ℕ)
          → 0 < length suffix
          → get_or suffix 0 0 ≢ b'/'
          → length (topic_prefix mote_node_id ++ suffix) ≤ max_topic_len
          → cbor_get_bytes_view c m data_text ≡ some bytes
          → handle_sensor_data c mote_node_id m
            ≡ bm_pub (topic_prefix mote_node_id ++ suffix) bytes (length bytes % 65536) ∷ [])
        × ((length suffix ≡ 0)
              ⊎ ((get_or suffix 0 0 ≡ b'/')
                  ⊎ ((max_topic_len < length (topic_prefix mote_node_id ++ suffix))
                      ⊎ (cbor_get_bytes_view c m data_text ≡ none)))
            → handle_sensor_data c mote_node_id m ≡ [])
  unfolding handle_sensor_data publish
  handle_sensor_data_lem z =
      let prefix = length-topic_prefix mote_node_id in
      let joined = length-append (topic_prefix mote_node_id) suffix in
      let plain : c_string (topic_prefix mote_node_id ++ suffix)
          ≡ topic_prefix mote_node_id ++ suffix =
        c_string-NoZero _ (All-append (λ c. 0 < c) _ suffix (topic_prefix-NoZero mote_node_id) z) in
      (
        λ bytes h s l v. rw (e, report) (rw (v, publish) (ground arith)),
        λ bad. rw (e, report) (ground arith),
      )
