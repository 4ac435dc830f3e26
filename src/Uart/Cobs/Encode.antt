-- ===== src/Uart/Cobs/Encode.antt =====
-- `cobs_encode` with room for the worst case writes the encoding, and nothing outside the array.
use bm_sbc.Prelude.{
  ℕ, suc, ◌+◌, ◌/◌, ◌≤◌, ◌<◌, ◌≡◌, ◌≢◌, refl, some, List, [], ◌∷◌, ◌++◌, length, length-append,
  set-append, append_assoc, append-nil, arith,
}
use native.Mathlib.Decide.{ℕ_discrete}
use mathlib.Core.Path.{subst₂}
use bm_sbc.Uart.Cobs.{Outcome, ok, encode_loop, encode, is_cons, encode_max}
use bm_sbc.Uart.Cobs.Spec.{stuff, encoding, stuff-zero, stuff-full, stuff_full_last, stuff-snoc}
use bm_sbc.Uart.Cobs.EncodeStep.{view, length-view, step_zero, step-snoc, step-full, step_full_last}

-- The result of a loop that wrote `out` behind `pre` and left `tail` as it was or unspecified.
abbrev pub Wrote : ℕ → List ℕ → Outcome (List ℕ × ℕ) → Type 0
Wrote total out r =
    (tail : List ℕ) × (r ≡ ok (out ++ tail, length out)) × (length out + length tail ≡ total)

-- The final code byte.
finish :
    (dst_len : ℕ) (pre : List ℕ) (c : ℕ) (run rest : List ℕ)
    → Wrote
        (length pre + suc (length run) + length rest)
        (pre ++ suc (length run) ∷ run)
        (encode_loop dst_len [] (view pre c run rest))
unfolding encode_loop
finish dst_len pre c run rest = (
  rest,
  ground (
    arith,
    length-view pre c run rest,
    set-append pre c (run ++ rest) (length pre) (suc (length run)) refl,
    append_assoc pre (suc (length run) ∷ run) rest,
    length-append pre (suc (length run) ∷ run),
  ),
  omega (arith, length-append pre (suc (length run) ∷ run)),
)

-- The final code byte behind a full run lies outside what is returned, and inside the array.
finish_full :
    (dst_len : ℕ) (out : List ℕ) (d : ℕ) (rest : List ℕ)
    → Wrote (length out + suc (length rest)) (out ++ []) (
        encode_loop dst_len []
          (record { dst = out ++ d ∷ rest; dst_idx = length out; code_idx = length out; code = 1 }))
unfolding encode_loop
finish_full dst_len out d rest = (
  1 ∷ rest,
  ground (
    arith,
    length-append out (d ∷ rest),
    set-append out d rest (length out) 1 refl,
    append-nil out,
  ),
  omega (arith, length-append out []),
)

abbrev room : List ℕ → List ℕ → List ℕ → ℕ
room pre run src = length pre + suc (length run) + length src + (length run + length src) / 254

Wrote-eq :
    {m n : ℕ} {a b : List ℕ} {r : Outcome (List ℕ × ℕ)} → m ≡ n → a ≡ b → Wrote m a r → Wrote n b r
Wrote-eq {r = r} p q w = subst₂ (λ n b. Wrote n b r) p q w

-- What the loop does from a run that has just been opened, for one source.
abbrev FromFresh : ℕ → List ℕ → Type 0
FromFresh dst_len src =
    (pre : List ℕ) (c : ℕ) (rest : List ℕ)
    → room pre [] src ≤ dst_len
    → dst_len ≤ length pre + 1 + length rest
    → Wrote (length pre + 1 + length rest) (pre ++ stuff [] src)
        (encode_loop dst_len src (view pre c [] rest))

full_case :
    (dst_len x : ℕ) (src pre : List ℕ) (c : ℕ) (run : List ℕ) (d : ℕ) (rest : List ℕ)
    → x ≢ 0
    → length run ≡ 253
    → room pre run (x ∷ src) ≤ dst_len
    → dst_len ≤ length pre + suc (length run) + length (d ∷ rest)
    → FromFresh dst_len src
    → Wrote
        (length pre + suc (length run) + length (d ∷ rest))
        (pre ++ stuff run (x ∷ src))
        (encode_loop dst_len (x ∷ src) (view pre c run (d ∷ rest)))
unfolding encode_loop
full_case dst_len x [] pre c run d [] n f fits inside fresh = absurd (omega arith)
full_case dst_len x [] pre c run d (e ∷ rest) n f fits inside fresh =
    rw
      (
        stuff_full_last run x [] n f refl,
        step_full_last dst_len pre c run d (e ∷ rest) x n f (omega arith),
      )
      (Wrote-eq
        (omega (arith, length-append pre (255 ∷ (run ++ x ∷ [])), length-append run (x ∷ [])))
        (append_assoc pre (255 ∷ (run ++ x ∷ [])) [])
        (finish_full dst_len (pre ++ 255 ∷ (run ++ x ∷ [])) e rest))
full_case dst_len x (y ∷ src) pre c run d [] n f fits inside fresh = absurd (omega arith)
full_case dst_len x (y ∷ src) pre c run d (e ∷ rest) n f fits inside fresh =
    rw
      (
        stuff-full run x (y ∷ src) n f refl,
        step-full dst_len pre c run d e rest x n f (omega arith),
      )
      (Wrote-eq
        (omega (arith, length-append pre (255 ∷ (run ++ x ∷ [])), length-append run (x ∷ [])))
        (append_assoc pre (255 ∷ (run ++ x ∷ [])) (stuff [] (y ∷ src)))
        (fresh (pre ++ 255 ∷ (run ++ x ∷ [])) e rest
          (omega (arith, length-append pre (255 ∷ (run ++ x ∷ [])), length-append run (x ∷ [])))
          (omega (arith, length-append pre (255 ∷ (run ++ x ∷ [])), length-append run (x ∷ [])))))

loop_lem :
    (dst_len : ℕ) (src pre : List ℕ) (c : ℕ) (run rest : List ℕ)
    → length run < 254
    → room pre run src ≤ dst_len
    → dst_len ≤ length pre + suc (length run) + length rest
    → Wrote
        (length pre + suc (length run) + length rest)
        (pre ++ stuff run src)
        (encode_loop dst_len src (view pre c run rest))
unfolding encode_loop
loop_lem dst_len [] pre c run rest short fits inside = unfold stuff in finish dst_len pre c run rest
loop_lem dst_len (x ∷ src) pre c run [] short fits inside = absurd (omega arith)
loop_lem dst_len (x ∷ src) pre c run (d ∷ rest) short fits inside = elim (ℕ_discrete x 0) [
  | yes e ↦
      rw
        (stuff-zero run x src e, step_zero dst_len pre c run d rest x (is_cons src) e (omega arith))
        (Wrote-eq (omega (arith, length-append pre (suc (length run) ∷ run)))
          (append_assoc pre (suc (length run) ∷ run) (stuff [] src))
          (loop_lem dst_len src (pre ++ suc (length run) ∷ run) d [] rest (omega arith)
            (omega (arith, length-append pre (suc (length run) ∷ run)))
            (omega (arith, length-append pre (suc (length run) ∷ run)))))
  | no n ↦ elim (ℕ_discrete (length run) 253) [
    | yes f ↦
        full_case dst_len x src pre c run d rest n f fits inside
          (λ p e r. loop_lem dst_len src p e [] r (omega arith))
    | no g ↦
        rw
          (
            stuff-snoc run x src n g,
            step-snoc dst_len pre c run d rest x (is_cons src) n (omega arith) (omega arith),
          )
          (Wrote-eq (omega (arith, length-append run (x ∷ []))) refl (
            loop_lem dst_len src pre c (run ++ x ∷ []) rest
              (omega (arith, length-append run (x ∷ [])))
              (omega (arith, length-append run (x ∷ [])))
              (omega (arith, length-append run (x ∷ [])))))
  ]
]

-- With a destination that is long enough for the worst case (`COBS_ENCODE_MAX`), `cobs_encode`
-- never writes outside the array, never reports a full buffer, writes the encoding of the source
-- to the front of the array, and returns its length.
pub encode-encoding :
    (dst : List ℕ) (dst_len : ℕ) (src : List ℕ)
    → encode_max (length src) ≤ dst_len
    → dst_len ≤ length dst
    → Wrote (length dst) (encoding src) (encode (some dst) dst_len (some src))
unfolding encode
encode-encoding [] dst_len src fits inside = absurd (omega arith)
encode-encoding (d ∷ rest) dst_len src fits inside =
    ground (arith, loop_lem dst_len src [] d [] rest (omega arith) (omega arith) (omega arith))
