-- ===== src/Uart/Cobs/EncodeStep.antt =====
-- One round of `cobs_encode` of src/transports/uart_l2/cobs.c.
use bm_sbc.Prelude.{
  ℕ, suc, ◌+◌, ◌<◌, ◌≡◌, ◌≢◌, refl, Bool, true, false, List, [], ◌∷◌, ◌++◌, length, length-append,
  length-set, set, set-append, append-snoc, append_assoc, arith,
}
use bm_sbc.Uart.Cobs.{ok, Enc, write, encode_step}

-- `pre` is finished, `c` is the reserved code byte, `run` stands behind it, `rest` is free.
abbrev pub view : List ℕ → ℕ → List ℕ → List ℕ → Enc
view pre c run rest = record {
  dst = pre ++ c ∷ (run ++ rest);
  dst_idx = length pre + suc (length run);
  code_idx = length pre;
  code = suc (length run);
}

Enc-eq :
    {d d' : List ℕ} {i i' j j' k k' : ℕ}
    → d ≡ d'
    → i ≡ i'
    → j ≡ j'
    → k ≡ k'
    → ◌≡◌ {A = Enc}
        (record { dst = d; dst_idx = i; code_idx = j; code = k })
        (record { dst = d'; dst_idx = i'; code_idx = j'; code = k' })
Enc-eq p q r s = λ i. record { dst = p i; dst_idx = q i; code_idx = r i; code = s i }

write_ok : (dst : List ℕ) (i v : ℕ) → i < length dst → write dst i v ≡ ok (set dst i v)
write_ok dst i v h = ground arith

pub length-view :
    (pre : List ℕ) (c : ℕ) (run rest : List ℕ)
    → length (pre ++ c ∷ (run ++ rest)) ≡ length pre + suc (length run) + length rest
length-view pre c run rest =
    omega (arith, length-append pre (c ∷ (run ++ rest)), length-append run rest)

module _ (dst_len : ℕ) (pre : List ℕ) (c : ℕ) (run : List ℕ) where
  pub step_zero :
      (d : ℕ) (rest : List ℕ) (x : ℕ) (more : Bool)
      → x ≡ 0
      → length pre + suc (length run) < dst_len
      → encode_step dst_len x more (view pre c run (d ∷ rest))
        ≡ ok (view (pre ++ suc (length run) ∷ run) d [] rest)
  unfolding encode_step
  step_zero d rest x more e room = ground (
    arith,
    length-view pre c run (d ∷ rest),
    set-append pre c (run ++ d ∷ rest) (length pre) (suc (length run)) refl,
    length-append pre (suc (length run) ∷ run),
    append_assoc pre (suc (length run) ∷ run) (d ∷ rest),
  )

  -- A byte that leaves the run short of its maximum.
  pub step-snoc :
      (d : ℕ) (rest : List ℕ) (x : ℕ) (more : Bool)
      → x ≢ 0
      → length run < 253
      → length pre + suc (length run) < dst_len
      → encode_step dst_len x more (view pre c run (d ∷ rest))
        ≡ ok (view pre c (run ++ x ∷ []) rest)
  unfolding encode_step
  step-snoc d rest x more n short room = ground (
    arith,
    length-view pre c run (d ∷ rest),
    set-append (pre ++ c ∷ run) d rest (length pre + suc (length run)) x
        (omega (arith, length-append pre (c ∷ run))),
    append_assoc pre (c ∷ run) (d ∷ rest),
    append_assoc pre (c ∷ run) (x ∷ rest),
    append-snoc run rest x,
    length-append run (x ∷ []),
  )

  -- The byte that fills the run, with more to come and at the end of the source.
  pub step-full :
      (d e : ℕ) (rest : List ℕ) (x : ℕ)
      → x ≢ 0
      → length run ≡ 253
      → length pre + suc (length run) + 1 < dst_len
      → encode_step dst_len x true (view pre c run (d ∷ e ∷ rest))
        ≡ ok (view (pre ++ 255 ∷ (run ++ x ∷ [])) e [] rest)
  unfolding encode_step
  step-full d e rest x n full room = ground (
    arith,
    length-view pre c run (d ∷ e ∷ rest),
    length-set (pre ++ c ∷ (run ++ d ∷ e ∷ rest)) (length pre + suc (length run)) x,
    set-append (pre ++ c ∷ run) d (e ∷ rest) (length pre + suc (length run)) x
        (omega (arith, length-append pre (c ∷ run))),
    append_assoc pre (c ∷ run) (d ∷ e ∷ rest),
    append_assoc pre (c ∷ run) (x ∷ e ∷ rest),
    set-append pre c (run ++ x ∷ e ∷ rest) (length pre) 255 refl,
    append-snoc run (e ∷ rest) x,
    append_assoc pre (255 ∷ (run ++ x ∷ [])) (e ∷ rest),
    length-append pre (255 ∷ (run ++ x ∷ [])),
    length-append run (x ∷ []),
  )

  pub step_full_last :
      (d : ℕ) (rest : List ℕ) (x : ℕ)
      → x ≢ 0
      → length run ≡ 253
      → length pre + suc (length run) < dst_len
      → encode_step dst_len x false (view pre c run (d ∷ rest))
        ≡ ok (record {
          dst = (pre ++ 255 ∷ (run ++ x ∷ [])) ++ rest;
          dst_idx = length (pre ++ 255 ∷ (run ++ x ∷ []));
          code_idx = length (pre ++ 255 ∷ (run ++ x ∷ []));
          code = 1;
        })
  unfolding encode_step
  step_full_last d rest x n full room = ground (
    arith,
    length-view pre c run (d ∷ rest),
    length-set (pre ++ c ∷ (run ++ d ∷ rest)) (length pre + suc (length run)) x,
    set-append (pre ++ c ∷ run) d rest (length pre + suc (length run)) x
        (omega (arith, length-append pre (c ∷ run))),
    append_assoc pre (c ∷ run) (d ∷ rest),
    append_assoc pre (c ∷ run) (x ∷ rest),
    set-append pre c (run ++ x ∷ rest) (length pre) 255 refl,
    append-snoc run rest x,
    append_assoc pre (255 ∷ (run ++ x ∷ [])) rest,
    length-append pre (255 ∷ (run ++ x ∷ [])),
    length-append run (x ∷ []),
  )
