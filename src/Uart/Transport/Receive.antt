-- ===== src/Uart/Transport/Receive.antt =====
-- The receiver, whatever arrives: its buffer stays within bounds and free of zero bytes, and what
-- it delivers are frames of a legal size.
use bm_sbc.Prelude.{
  ℕ, ◌≤◌, ◌<◌, ◌≡◌, refl, Bool, inl, inr, Option, none, some, List, [], ◌∷◌, ltb, ◌==◌, length,
  length-append, All, All-append, NoZero, IsBytes, Bool-cases, arith,
}
use bm_sbc.Uart.FrameCodec.{max_l2_size, max_wire_size, frame_decode}
use bm_sbc.Uart.FrameCodec.Soundness.{frame_decode_sound}
use bm_sbc.Uart.Transport.{
  Rx, hand_over, end_frame, rx_byte, rx_bytes, rx_thread, ReadEvent, got, nothing, try_again,
  read_error, stop,
}

abbrev pub IsFrame : List ℕ → Type 0
IsFrame l2 = (0 < length l2) × (length l2 ≤ max_l2_size)

pub record IsSound (s : Rx) : Type 0 where
  pub bounded : length s.accum ≤ max_wire_size
  pub plain : NoZero s.accum
  pub bytes : IsBytes s.accum
  pub frames : All IsFrame s.delivered

hand_over-frames :
    (o : Option (List ℕ)) (s : Rx)
    → ((l2 : List ℕ) → o ≡ some l2 → IsFrame l2)
    → All IsFrame s.delivered
    → All IsFrame (hand_over o s).delivered
hand_over-frames none s h d = d
hand_over-frames (some l2) s h d = All-append IsFrame s.delivered (l2 ∷ []) d (h l2 refl, tt)

decoded-IsFrame :
    (wire l2 : List ℕ)
    → IsBytes wire
    → frame_decode (some max_l2_size) (some wire) ≡ some l2
    → IsFrame l2
decoded-IsFrame wire l2 b e = let f = frame_decode_sound max_l2_size wire l2 b e in (f.1, f.2)

end_frame-IsSound : (rx_cb : Bool) (s : Rx) → IsSound s → IsSound (end_frame rx_cb s)
unfolding end_frame
end_frame-IsSound rx_cb s v = record {
  bounded = omega arith;
  plain = tt;
  bytes = tt;
  frames = ground (
    arith,
    v.frames,
    hand_over-frames (frame_decode (some max_l2_size) (some s.accum)) s
        (λ l2 e. decoded-IsFrame s.accum l2 v.bytes e) v.frames,
  );
}

rx_byte-IsSound :
    (rx_cb : Bool) (b : ℕ) (s : Rx) → b < 256 → IsSound s → IsSound (rx_byte rx_cb b s)
unfolding rx_byte
rx_byte-IsSound rx_cb b s small v = elim (Bool-cases (b == 0)) [
  | inl e ↦ rw e (end_frame-IsSound rx_cb s v)
  | inr e ↦ rw e (elim (Bool-cases (ltb (length s.accum) max_wire_size)) [
    | inl room ↦ rw room (record {
      bounded = ground (arith, length-append s.accum (b ∷ []));
      plain = All-append (λ x. 0 < x) s.accum (b ∷ []) v.plain (ground arith, tt);
      bytes = All-append (λ x. x < 256) s.accum (b ∷ []) v.bytes (small, tt);
      frames = v.frames;
    })
    | inr none_left ↦
        rw none_left (record { bounded = omega arith; plain = tt; bytes = tt; frames = v.frames })
  ])
]

pub rx_bytes-IsSound :
    (rx_cb : Bool) (bs : List ℕ) (s : Rx) → IsBytes bs → IsSound s → IsSound (rx_bytes rx_cb bs s)
unfolding rx_bytes
rx_bytes-IsSound rx_cb [] s h v = v
rx_bytes-IsSound rx_cb (b ∷ bs) s h v =
    rx_bytes-IsSound rx_cb bs (rx_byte rx_cb b s) h.1 (rx_byte-IsSound rx_cb b s h.0 v)

abbrev pub AreBytes : ReadEvent → Type 0
AreBytes (got bs) = IsBytes bs
AreBytes _ = Unit {0}

-- Whatever the reads return, in whatever order, the buffer of the receiver never passes its size
-- and holds no zero byte, and every frame handed to the callback has 1 to 1522 bytes.
pub rx_thread-IsSound :
    (rx_cb : Bool) (events : List ReadEvent) (s : Rx)
    → All AreBytes events
    → IsSound s
    → IsSound (rx_thread rx_cb events s)
unfolding rx_thread
rx_thread-IsSound rx_cb [] s h v = v
rx_thread-IsSound rx_cb (got bs ∷ events) s h v =
    rx_thread-IsSound rx_cb events (rx_bytes rx_cb bs s) h.1 (rx_bytes-IsSound rx_cb bs s h.0 v)
rx_thread-IsSound rx_cb (nothing ∷ events) s h v = rx_thread-IsSound rx_cb events s h.1 v
rx_thread-IsSound rx_cb (try_again ∷ events) s h v = rx_thread-IsSound rx_cb events s h.1 v
rx_thread-IsSound rx_cb (read_error ∷ events) s h v = v
rx_thread-IsSound rx_cb (stop ∷ events) s h v = v
