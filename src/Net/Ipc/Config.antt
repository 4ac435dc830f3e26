-- ===== src/Net/Ipc/Config.antt =====
-- What `handle_config_set` writes.
use bm_sbc.Prelude.{
  ℕ, ◌+◌, ◌-◌, ◌≤◌, ◌<◌, ◌≡◌, ◌⊎◌, inl, inr, refl, true, Option, none, some, Option-cases, List, [],
  ◌∷◌, ltb, ◌==◌, if◌then◌else◌, length, in_int32, by_if, arith,
}
use bm_sbc.Net.Ipc.CborQueries.{Cbor}
use bm_sbc.Net.Ipc.{
  Stack, IpcCall, set_config_string, set_config_uint, set_config_int, set_config_float, save_config,
  max_ipc_config_str_bytes, cbor_get_text, text_of, config_key_text, config_value_text,
  apply_config_string, apply_config_uint, apply_config_int, apply_config_float, apply_config, save,
  apply_and_save, handle_config_set,
}
use bm_sbc.Net.Ipc

-- A text is copied only if it fits.
abbrev pub CopiesWhole : Cbor → Type 0
CopiesWhole c =
    (v : c.Value) (n : ℕ) (cs : List ℕ) → c.copy_text_string v n ≡ some cs → length cs ≤ n

abbrev pub KeyIsValid : Stack → List ℕ → Type 0
KeyIsValid k key = (0 < length key) × (length key ≤ k.max_key_len_bytes)

pub cbor_get_text-length :
    (c : Cbor)
    → CopiesWhole c
    → (m : c.Value) (name : List ℕ) (cap : ℕ) (cs : List ℕ)
    → cbor_get_text c m name (cap + 1) ≡ some cs
    → length cs ≤ cap
unfolding cbor_get_text
cbor_get_text-length c copies m name cap cs e = copied (c.map_find_value m name) e
  where
    copied : (o : Option c.Value) → text_of c (cap + 1 - 1) o ≡ some cs → length cs ≤ cap
    copied none e = cc
    copied (some v) e = ground (arith, copies v (cap + 1 - 1) cs)

module _ (c : Cbor) (k : Stack) where
  -- A call of `set_config_*` whose key and value fit what the stack stores.
  abbrev pub Storable : IpcCall c → Type 0
  Storable (set_config_string key value) =
      KeyIsValid k key × (length value ≤ k.max_config_buffer_size_bytes - 2)
  Storable (set_config_uint key u) = KeyIsValid k key × (u < 4294967296)
  Storable (set_config_int key i) = KeyIsValid k key × (in_int32 i ≡ true)
  Storable (set_config_float key d) = KeyIsValid k key
  Storable (Ipc.spotter_log name stamp text) = ⊥
  Storable (Ipc.spotter_tx_data bytes len fallback) = ⊥
  Storable (Ipc.bm_pub topic bytes len) = ⊥
  Storable save_config = ⊥
  Storable Ipc.replay_caught_up = ⊥

  -- Nothing; or one value set, and the partition saved if the stack took the value.
  abbrev pub SetsOne : List (IpcCall c) → Type 0
  SetsOne calls =
      (calls ≡ [])
      ⊎ ((set : IpcCall c) × Storable set
          × (calls ≡ set ∷ (if k.set_config_ok then save_config ∷ [] else [])))

  module _ (copies : CopiesWhole c) (key : List ℕ) (valid : KeyIsValid k key) where
    abbrev StorableIf : Option (IpcCall c) → Type 0
    StorableIf none = Unit
    StorableIf (some set) = Storable set

    apply_config_string-Storable : (v : c.Value) → StorableIf (apply_config_string c k key v)
    unfolding apply_config_string
    apply_config_string-Storable v = elim (Option-cases (c.get_string_length v)) [
      | inl e ↦ rw (e, apply_config_string) tt
      | inr (str_len, e) ↦
          rw (e, apply_config_string)
            (by_if StorableIf (ltb (max_ipc_config_str_bytes c k) str_len) _ _ (λ e. tt)
              (λ e. elim (Option-cases (c.copy_text_string v (max_ipc_config_str_bytes c k))) [
                | inl n ↦ rw n tt
                | inr (value, n) ↦ rw n (valid, copies v (max_ipc_config_str_bytes c k) value n)
              ]))
    ]

    apply_config-Storable : (v : c.Value) → StorableIf (apply_config c k key v)
    unfolding apply_config apply_config_string apply_config_uint apply_config_int apply_config_float
    apply_config-Storable v =
        by_if StorableIf (c.is_text_string v) _ _ (λ e. apply_config_string-Storable v)
          (λ e.
            by_if StorableIf (c.is_unsigned_integer v) _ _ (λ e. ground arith)
              (λ e. by_if StorableIf (c.is_integer v) _ _ (λ e. ground arith) (λ e. ground arith)))

    save-SetsOne : (set : Option (IpcCall c)) → StorableIf set → SetsOne (save c k set)
    save-SetsOne none h = inl refl
    save-SetsOne (some set) h = inr (set, h, refl)

  apply_and_save-SetsOne :
      CopiesWhole c
      → (key : List ℕ) → KeyIsValid k key
      → (v : Option c.Value) → SetsOne (apply_and_save c k key v)
  apply_and_save-SetsOne copies key valid none = inl refl
  apply_and_save-SetsOne copies key valid (some v) =
      by_if SetsOne (c.is_invalid v) _ _ (λ e. inl refl)
        (λ e. save-SetsOne copies key valid _ (apply_config-Storable copies key valid v))

  -- An order to set a value sets at most one, with a key of 1 to MAX_KEY_LEN_BYTES bytes: a text
  -- of at most MAX_CONFIG_BUFFER_SIZE_BYTES - 2 bytes, or a number in the range of 32 bits, or a
  -- floating one. The partition is saved exactly if the stack took the value. This holds if the
  -- CBOR library copies only texts that fit.
  pub handle_config_set-SetsOne : CopiesWhole c → (m : c.Value) → SetsOne (handle_config_set c k m)
  unfolding handle_config_set
  handle_config_set-SetsOne copies m =
      elim (Option-cases (cbor_get_text c m config_key_text (k.max_key_len_bytes + 1))) [
        | inl e ↦ rw (e, handle_config_set) (inl refl)
        | inr (key, e) ↦
            rw (e, handle_config_set)
              (by_if SetsOne (length key == 0) _ _ (λ z. inl refl)
                (λ z.
                  apply_and_save-SetsOne copies key
                    (
                      ground arith,
                      cbor_get_text-length c copies m config_key_text k.max_key_len_bytes key e,
                    )
                    (c.map_find_value m config_value_text)))
      ]
