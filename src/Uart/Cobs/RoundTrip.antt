-- ===== src/Uart/Cobs/RoundTrip.antt =====
-- Decoding an encoded block gives the bytes back, and an encoded block is free of zero bytes.
use mathlib.Core.Path.{subst}
use bm_sbc.Prelude.{
  ℕ, zero, suc, ◌+◌, ◌/◌, ◌≤◌, ◌<◌, ◌≡◌, ◌≢◌, ◌⊎◌, refl, ap, ◌∙◌, true, false, inl, inr, some, List,
  [], ◌∷◌, ◌++◌, length, length-append, append-snoc, append_assoc, append-nil, take, take-append,
  NoZero, IsBytes, All-append, arith,
}
use bm_sbc.Uart.Cobs.{encode_max, ok, encode, is_cons, decode_loop, decode, or_nothing}
use bm_sbc.Uart.Cobs.Spec.{encoding, stuff_induction}
use bm_sbc.Uart.Cobs.DecodeStep.{decode_step_plain, decode_step_zero}
use bm_sbc.Uart.Cobs.Encode.{encode-encoding}

snoc-NoZero : (run : List ℕ) (x : ℕ) → NoZero run → 0 < x → NoZero (run ++ x ∷ [])
snoc-NoZero run x h p = All-append (λ x. 0 < x) run (x ∷ []) h (p, tt)

append-nil-NoZero : (run : List ℕ) → NoZero run → NoZero (run ++ [])
append-nil-NoZero run h = rw append-nil h

snoc-IsBytes : (run : List ℕ) (x : ℕ) → IsBytes run → x < 256 → IsBytes (run ++ x ∷ [])
snoc-IsBytes run x h p = All-append (λ x. x < 256) run (x ∷ []) h (p, tt)

-- The encoding of any bytes has no zero byte.
pub encoding-NoZero : (src : List ℕ) → NoZero (encoding src)
encoding-NoZero src =
    stuff_induction (λ run _ out. NoZero run → NoZero out) (λ run _ h. (omega arith, h))
      (λ run src out _ _ ih h. (omega arith, All-append (λ x. 0 < x) run out h (ih tt)))
      (λ run x n _ h. (omega arith, append-nil-NoZero _ (snoc-NoZero run x h (omega arith))))
      (λ run x src out n _ ih h.
        (omega arith, All-append (λ x. 0 < x) _ out (snoc-NoZero run x h (omega arith)) (ih tt)))
      (λ run x src out n _ ih h. ih (snoc-NoZero run x h (omega arith))) src [] (omega arith) tt

-- The encoding is made of bytes.
pub encoding-IsBytes : (src : List ℕ) → IsBytes src → IsBytes (encoding src)
encoding-IsBytes src h =
    stuff_induction (λ run src out. IsBytes run → IsBytes src → IsBytes out)
      (λ run b r s. (omega arith, r))
      (λ run src out b _ ih r s. (omega arith, All-append (λ x. x < 256) run out r (ih tt s.1)))
      (λ run x n _ r s. (omega arith, All-append (λ x. x < 256) _ [] (snoc-IsBytes run x r s.0) tt))
      (λ run x src out n _ ih r s.
        (omega arith, All-append (λ x. x < 256) _ out (snoc-IsBytes run x r s.0) (ih tt s.1)))
      (λ run x src out n _ ih r s. ih (snoc-IsBytes run x r s.0) s.1) src [] (omega arith) tt h

-- The worst case of `COBS_ENCODE_MAX` bounds every encoding, which is longer than its source.
pub length-encoding :
    (src : List ℕ)
    → (length (encoding src) ≤ encode_max (length src)) × (length src < length (encoding src))
length-encoding src = ground (
  arith,
  stuff_induction
      (λ run src out.
        (length out ≤ length run + length src + 1 + (length run + length src) / 254)
        × (length run + length src < length out))
      (λ run _. omega arith) (λ run src out _ _ ih. omega (arith, ih, length-append run out))
      (λ run x n f. omega (arith, f, length-append (run ++ x ∷ []) [], length-append run (x ∷ [])))
      (λ run x src out n f ih.
        omega (arith, f, ih, length-append (run ++ x ∷ []) out, length-append run (x ∷ [])))
      (λ run x src out n f ih. omega (arith, ih, length-append run (x ∷ []))) src [] (omega arith),
)

-- From any output written so far, the decoder's loop goes on over the encoding.
abbrev Decodes : List ℕ → List ℕ → List ℕ → Type 0
Decodes run src block =
    (fuel dst_len : ℕ) (out : List ℕ)
    → NoZero run
    → length out + length run + length src ≤ dst_len
    → length block ≤ fuel
    → decode_loop fuel dst_len block out ≡ some (out ++ (run ++ src))

module _ (fuel dst_len code : ℕ) (run rest out res : List ℕ) (h : NoZero run)
    (c : code ≡ suc (length run)) where
  after_plain :
      length out + length run ≤ dst_len
      → (suc (length run) ≡ 255) ⊎ (is_cons rest ≡ false)
      → decode_loop fuel dst_len rest (out ++ run) ≡ some res
      → decode_loop (suc fuel) dst_len (code ∷ (run ++ rest)) out ≡ some res
  unfolding decode_loop
  after_plain room e r = rw (c, decode_step_plain dst_len run rest out h room e) r

  after_zero :
      length out + length run < dst_len
      → length run < 254
      → is_cons rest ≡ true
      → decode_loop fuel dst_len rest (out ++ (run ++ 0 ∷ [])) ≡ some res
      → decode_loop (suc fuel) dst_len (code ∷ (run ++ rest)) out ≡ some res
  unfolding decode_loop
  after_zero room short more r =
      rw (c, decode_step_zero dst_len run rest out h (omega arith) short more room) r

loop_end :
    (fuel dst_len : ℕ) (out res : List ℕ) → out ≡ res → decode_loop fuel dst_len [] out ≡ some res
unfolding decode_loop
loop_end zero dst_len out res e = ap some e
loop_end (suc fuel) dst_len out res e = ap some e

Decodes-last : (run : List ℕ) → length run < 254 → Decodes run [] (suc (length run) ∷ run)
Decodes-last run short zero dst_len out h room f = absurd (omega arith)
Decodes-last run short (suc fuel) dst_len out h room f =
    subst
      (λ t. decode_loop (suc fuel) dst_len (suc (length run) ∷ t) out ≡ some (out ++ (run ++ [])))
      (append-nil run)
      (after_plain fuel dst_len (suc (length run)) run [] out _ h refl (omega arith) (inr refl)
        (loop_end fuel dst_len _ _ (rw append-nil)))

Decodes-zero :
    (run src block : List ℕ)
    → length run < 254
    → is_cons block ≡ true
    → Decodes [] src block
    → Decodes run (0 ∷ src) (suc (length run) ∷ (run ++ block))
Decodes-zero run src block short more ih zero dst_len out h room f = absurd (omega arith)
Decodes-zero run src block short more ih (suc fuel) dst_len out h room f =
    after_zero fuel dst_len (suc (length run)) run block out _ h refl (omega arith) short more (
      ih fuel dst_len (out ++ (run ++ 0 ∷ [])) tt
        (omega (arith, length-append out (run ++ 0 ∷ []), length-append run (0 ∷ [])))
        (omega (arith, length-append run block))
      ∙ ap some (append_assoc out (run ++ 0 ∷ []) src ∙ ap (◌++◌ out) (append-snoc run src 0)))

Decodes-full :
    (run : List ℕ) (x : ℕ) (src block : List ℕ)
    → x ≢ 0
    → length run ≡ 253
    → Decodes [] src block
    → Decodes run (x ∷ src) (255 ∷ ((run ++ x ∷ []) ++ block))
Decodes-full run x src block n f ih zero dst_len out h room fuel_ok = absurd (omega arith)
Decodes-full run x src block n f ih (suc fuel) dst_len out h room fuel_ok =
    let full : length (run ++ x ∷ []) ≡ 254 = omega (arith, length-append run (x ∷ [])) in
    after_plain fuel dst_len 255 (run ++ x ∷ []) block out _ (snoc-NoZero run x h (omega arith))
      (omega arith) (omega arith) (inl (omega arith))
      (ih fuel dst_len (out ++ (run ++ x ∷ [])) tt
          (omega (arith, length-append out (run ++ x ∷ [])))
          (omega (arith, length-append (run ++ x ∷ []) block))
        ∙ ap some (append_assoc out (run ++ x ∷ []) src ∙ ap (◌++◌ out) (append-snoc run src x)))

Decodes-full_last :
    (run : List ℕ) (x : ℕ)
    → x ≢ 0
    → length run ≡ 253
    → Decodes run (x ∷ []) (255 ∷ ((run ++ x ∷ []) ++ []))
Decodes-full_last run x n f =
    Decodes-full run x [] [] n f
      λ fuel dst_len out h room fuel_ok. loop_end fuel dst_len out _ (rw append-nil)

Decodes-snoc :
    (run : List ℕ) (x : ℕ) (src block : List ℕ)
    → x ≢ 0
    → length run < 253
    → Decodes (run ++ x ∷ []) src block
    → Decodes run (x ∷ src) block
Decodes-snoc run x src block n short ih fuel dst_len out h room fuel_ok =
    ih fuel dst_len out (snoc-NoZero run x h (omega arith))
      (omega (arith, length-append run (x ∷ []))) fuel_ok
    ∙ ap some (ap (◌++◌ out) (append-snoc run src x))

decode_of_loop :
    (dst_len : ℕ) (src res : List ℕ)
    → decode_loop (length src) dst_len src [] ≡ some res
    → decode (some dst_len) (some src) ≡ res
unfolding decode
decode_of_loop dst_len [] res h = unfold decode_loop in cc
decode_of_loop dst_len (x ∷ src) res h = ap or_nothing h

-- Decoding an encoded block into enough room gives exactly the bytes that were encoded.
pub decode-encoding :
    (dst_len : ℕ) (src : List ℕ)
    → length src ≤ dst_len
    → decode (some dst_len) (some (encoding src)) ≡ src
decode-encoding dst_len src room = decode_of_loop dst_len (encoding src) src (
    stuff_induction Decodes Decodes-last Decodes-zero Decodes-full_last Decodes-full Decodes-snoc
      src [] (omega arith) (length (encoding src)) dst_len [] tt (omega arith) (omega arith))

-- Encoding into an array of at least the worst-case size succeeds within the array, and decoding
-- the bytes that it returns, into room for the source, gives the source back.
pub decode-encode :
    (dst : List ℕ) (dst_len room : ℕ) (src : List ℕ)
    → encode_max (length src) ≤ dst_len
    → dst_len ≤ length dst
    → length src ≤ room
    → (out : List ℕ) × (n : ℕ) × (encode (some dst) dst_len (some src) ≡ ok (out, n))
      × (length out ≡ length dst)
      × (decode (some room) (some (take n out)) ≡ src)
decode-encode dst dst_len room src fits inside enough =
    let (tail, wrote, size) = encode-encoding dst dst_len src fits inside in
    (
      encoding src ++ tail,
      length (encoding src),
      wrote,
      omega (arith, length-append (encoding src) tail),
      rw (take-append (length (encoding src)) (encoding src) tail refl)
          (decode-encoding room src enough),
    )
