-- ===== src/Net/Ipc/Dispatch.antt =====
-- Which datagrams `dispatch` obeys, and what it may make of them.
use bm_sbc.Prelude.{
  ℕ, ◌≤◌, ◌<◌, ◌≡◌, ◌⊎◌, inl, inr, refl, Bool, true, not, Option, none, some, Option-cases, List,
  [], ◌∷◌, ◌++◌, ◌==◌, length, length-append, c_string, same_text, All, by_if, arith,
}
use bm_sbc.Net.Ipc.CborQueries.{Cbor}
use bm_sbc.Net.Ipc.{
  Stack, IpcCall, spotter_log, spotter_tx_data, bm_pub, set_config_string, set_config_uint,
  set_config_int, set_config_float, save_config, replay_caught_up, cbor_get_text,
  cbor_get_bytes_view, string_of, data_text, file_name_text, topic_suffix_text, type_text, v_text,
  replay_caught_up_text, spotter_log_text, spotter_tx_text, sensor_data_text, config_set_text,
  max_log_line_len, max_file_name_len, max_topic_len, recv_buf_bytes, topic_prefix, bytes_of,
  log_text, transmit, handle_spotter_log, handle_spotter_tx, publish, report, handle_sensor_data,
  handle_config_set, handle, handle_type, handle_version, handle_root, is_version_1, dispatch,
}
use bm_sbc.Net.Ipc.Sensor.{length-topic_prefix}
use bm_sbc.Net.Ipc.Config.{CopiesWhole, cbor_get_text-length, Storable, handle_config_set-SetsOne}

-- The bytes of a value lie in the datagram.
abbrev pub ViewsDatagram : Cbor → Type 0
ViewsDatagram c =
    (v : c.Value) (bytes : List ℕ) → c.first_chunk v ≡ some bytes → length bytes ≤ recv_buf_bytes

length-c_string : (cs : List ℕ) → length (c_string cs) ≤ length cs
length-c_string [] = omega arith
length-c_string (c ∷ cs) = ground (arith, length-c_string cs)

module _ (c : Cbor) (k : Stack) (mote_node_id : ℕ) where
  abbrev pub NameFits : Option (List ℕ) → Type 0
  NameFits none = Unit
  NameFits (some name) = length name ≤ max_file_name_len

  -- A call whose lengths are those of its data and within what the stack takes.
  abbrev pub CallFits : IpcCall c → Type 0
  CallFits (spotter_log name stamp text) = NameFits name × (length text ≤ max_log_line_len)
  CallFits (spotter_tx_data bytes len fallback) = (0 < len) × (len ≡ length bytes)
  CallFits (bm_pub topic bytes len) = (length topic ≤ max_topic_len) × (len ≡ length bytes)
  CallFits (set_config_string key value) = Storable c k (set_config_string key value)
  CallFits (set_config_uint key u) = Storable c k (set_config_uint key u)
  CallFits (set_config_int key i) = Storable c k (set_config_int key i)
  CallFits (set_config_float key d) = Storable c k (set_config_float key d)
  CallFits save_config = Unit
  CallFits replay_caught_up = Unit

  abbrev Fit : List (IpcCall c) → Type 0
  Fit calls = All CallFits calls

  Storable-CallFits : (set : IpcCall c) → Storable c k set → CallFits set
  Storable-CallFits (set_config_string key value) h = h
  Storable-CallFits (set_config_uint key u) h = h
  Storable-CallFits (set_config_int key i) h = h
  Storable-CallFits (set_config_float key d) h = h
  Storable-CallFits (spotter_log name stamp text) h = absurd h
  Storable-CallFits (spotter_tx_data bytes len fallback) h = absurd h
  Storable-CallFits (bm_pub topic bytes len) h = absurd h
  Storable-CallFits save_config h = absurd h
  Storable-CallFits replay_caught_up h = absurd h

  module _ (copies : CopiesWhole c) (views : ViewsDatagram c) where
    get_text-NameFits : (m : c.Value) → NameFits (string_of c (cbor_get_text c m file_name_text 64))
    get_text-NameFits m = elim (Option-cases (cbor_get_text c m file_name_text 64)) [
      | inl e ↦ rw (e, string_of) tt
      | inr (name, e) ↦
          rw (e, string_of)
            (omega (
              arith,
              length-c_string name,
              cbor_get_text-length c copies m file_name_text 63 name e,
            ))
    ]

    log_text-Fit :
        (text name : Option (List ℕ)) (stamp : Bool)
        → ((cs : List ℕ) → text ≡ some cs → length cs ≤ max_log_line_len)
        → NameFits name
        → Fit (log_text c text name stamp)
    log_text-Fit none name stamp h n = tt
    log_text-Fit (some text) name stamp h n =
        by_if Fit (length text == 0) _ _ (λ e. tt)
          (λ e. ((n, omega (arith, h text refl, length-c_string text)), tt))

    handle_spotter_log-Fit : (m : c.Value) → Fit (handle_spotter_log c m)
    unfolding handle_spotter_log
    handle_spotter_log-Fit m =
        log_text-Fit _ _ _ (cbor_get_text-length c copies m data_text 1024) (get_text-NameFits m)

    bytes_view-length :
        (m : c.Value) (name bytes : List ℕ)
        → cbor_get_bytes_view c m name ≡ some bytes
        → length bytes ≤ recv_buf_bytes
    unfolding cbor_get_bytes_view
    bytes_view-length m name bytes e = viewed (c.map_find_value m name) e
      where
        viewed : (o : Option c.Value) → bytes_of c o ≡ some bytes → length bytes ≤ recv_buf_bytes
        viewed none e = cc
        viewed (some v) e = ground (arith, views v bytes)

    transmit-Fit :
        (view : Option (List ℕ)) (fallback : Bool)
        → ((bytes : List ℕ) → view ≡ some bytes → length bytes ≤ recv_buf_bytes)
        → Fit (transmit c view fallback)
    transmit-Fit none fallback h = tt
    transmit-Fit (some bytes) fallback h = ground (arith, h bytes refl)

    handle_spotter_tx-Fit : (m : c.Value) → Fit (handle_spotter_tx c m)
    unfolding handle_spotter_tx
    handle_spotter_tx-Fit m = transmit-Fit _ _ (bytes_view-length m data_text)

    report-Fit :
        (text view : Option (List ℕ))
        → ((bytes : List ℕ) → view ≡ some bytes → length bytes ≤ recv_buf_bytes)
        → Fit (report c mote_node_id text view)
    unfolding publish
    report-Fit none view h = tt
    report-Fit (some suffix) none h = ground arith
    report-Fit (some suffix) (some bytes) h = ground (
      arith,
      h bytes refl,
      length-topic_prefix mote_node_id,
      length-append (topic_prefix mote_node_id) suffix,
      length-c_string (topic_prefix mote_node_id ++ suffix),
    )

    handle_config_set-Fit : (m : c.Value) → Fit (handle_config_set c k m)
    handle_config_set-Fit m = elim (handle_config_set-SetsOne c k copies m) [
      | inl e ↦ rw e tt
      | inr (set, s, e) ↦
          rw e (Storable-CallFits set s, by_if Fit k.set_config_ok _ _ (λ t. (tt, tt)) (λ f. tt))
    ]

    handle-Fit : (m : c.Value) (type : List ℕ) → Fit (handle c k mote_node_id m type)
    unfolding handle handle_sensor_data
    handle-Fit m type =
        by_if Fit (same_text type replay_caught_up_text) _ _ (λ e. (tt, tt))
          (λ e.
            by_if Fit (same_text type spotter_log_text) _ _ (λ e. handle_spotter_log-Fit m)
              (λ e.
                by_if Fit (same_text type spotter_tx_text) _ _ (λ e. handle_spotter_tx-Fit m)
                  (λ e.
                    by_if Fit (same_text type sensor_data_text) _ _
                      (λ e.
                        report-Fit (cbor_get_text c m topic_suffix_text 256) _
                          (bytes_view-length m data_text))
                      (λ e.
                        by_if Fit (same_text type config_set_text) _ _
                          (λ e. handle_config_set-Fit m) (λ e. tt)))))

  -- The datagram is a CBOR map that says version 1 and names a type of at most 31 bytes; `root` is
  -- the map and `type` the name.
  abbrev pub Accepts : List ℕ → c.Value → List ℕ → Type 0
  Accepts buf root type =
      (c.parse buf ≡ some root)
      × (c.is_map root ≡ true)
      × ((v_field : c.Value) × (c.map_find_value root v_text ≡ some v_field)
          × (c.is_integer v_field ≡ true)
          × (is_version_1 c (c.get_int v_field) ≡ true))
      × (cbor_get_text c root type_text 32 ≡ some type)

  abbrev ByType : c.Value → List (IpcCall c) → Type 0
  ByType root r =
      (r ≡ [])
      ⊎ ((type : List ℕ) × (cbor_get_text c root type_text 32 ≡ some type)
          × (r ≡ handle c k mote_node_id root (c_string type)))

  abbrev ByRoot : List ℕ → List (IpcCall c) → Type 0
  ByRoot buf r =
      (r ≡ [])
      ⊎ ((root : c.Value) × (type : List ℕ) × Accepts buf root type
          × (r ≡ handle c k mote_node_id root (c_string type)))

  handle_type-ByType :
      (root : c.Value) (o : Option (List ℕ))
      → cbor_get_text c root type_text 32 ≡ o
      → ByType root (handle_type c k mote_node_id root o)
  handle_type-ByType root none e = inl refl
  handle_type-ByType root (some type) e =
      by_if (ByType root) (length type == 0) _ _ (λ z. inl refl) (λ z. inr (type, e, refl))

  handle_version-ByRoot :
      (buf : List ℕ) (root : c.Value)
      → c.parse buf ≡ some root
      → c.is_map root ≡ true
      → (o : Option c.Value) → c.map_find_value root v_text ≡ o
      → ByRoot buf (handle_version c k mote_node_id root o)
  handle_version-ByRoot buf root p a none e = inl refl
  handle_version-ByRoot buf root p a (some v_field) e =
      by_if (ByRoot buf) (not (c.is_integer v_field)) _ _ (λ n. inl refl)
        (λ n.
          by_if (ByRoot buf) (not (is_version_1 c (c.get_int v_field))) _ _ (λ m. inl refl)
            (λ m. elim (handle_type-ByType root (cbor_get_text c root type_text 32) refl) [
              | inl z ↦ inl z
              | inr (type, t, z) ↦
                  inr (root, type, (p, a, (v_field, e, ground arith, ground arith), t), z)
            ]))

  handle_root-ByRoot :
      (buf : List ℕ) (o : Option c.Value)
      → c.parse buf ≡ o
      → ByRoot buf (handle_root c k mote_node_id o)
  handle_root-ByRoot buf none e = inl refl
  handle_root-ByRoot buf (some root) e =
      by_if (ByRoot buf) (not (c.is_map root)) _ _ (λ n. inl refl)
        (λ n. handle_version-ByRoot buf root e (ground arith) (c.map_find_value root v_text) refl)

  -- A datagram that is no CBOR map, or says another version than 1, or names no type, has no effect
  -- at all. Any other is left to the handler of its type.
  pub dispatch_lem :
      (buf : List ℕ)
      → (dispatch c k mote_node_id buf ≡ [])
        ⊎ ((root : c.Value) × (type : List ℕ) × Accepts buf root type
            × (dispatch c k mote_node_id buf ≡ handle c k mote_node_id root (c_string type)))
  unfolding dispatch
  dispatch_lem buf = handle_root-ByRoot buf (c.parse buf) refl

  -- If the CBOR library copies only texts that fit and gives only bytes of the datagram, then every
  -- call that a datagram causes is within the limits of the stack: a log line has at most 1024 bytes
  -- and a file name 63, a topic 255; the length that goes with data is the length of the data, not
  -- cut to 16 bits, and not 0 for a transmission; what is set has a valid key and a value in range.
  pub dispatch-CallFits :
      CopiesWhole c
      → ViewsDatagram c
      → (buf : List ℕ) → All CallFits (dispatch c k mote_node_id buf)
  dispatch-CallFits copies views buf = elim (dispatch_lem buf) [
    | inl e ↦ rw e tt
    | inr (root, type, a, e) ↦ rw e (handle-Fit copies views root (c_string type))
  ]
