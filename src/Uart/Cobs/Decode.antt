-- ===== src/Uart/Cobs/Decode.antt =====
-- What holds of every call of `cobs_decode`: the output stays within the room that it is given, and the source of an accepted block has no zero byte.
use bm_sbc.Prelude.{
  ℕ, zero, suc, ◌+◌, ◌-◌, ◌≤◌, ◌≡◌, ◌≢◌, refl, Option, none, some, List, [], ◌∷◌, if◌then◌else◌,
  length, NoZero, IsBytes, arith,
}
use bm_sbc.Uart.Cobs.{is_cons, decode_step, decode_loop, decode, or_nothing}
use bm_sbc.Uart.Cobs.DecodeStep.{then_some-eq-some, decode_step-Stepped}

-- What a successful run of the loop shows of its source and its output.
record Accepted (dst_len : ℕ) (src out res : List ℕ) : Type 0 where
  within : length out ≤ dst_len → length res ≤ dst_len
  plain : NoZero src
  shorter : length res + (if is_cons src then 1 else 0) ≤ length out + length src
  bytes : IsBytes src → IsBytes out → IsBytes res

decode_loop-Accepted :
    (fuel dst_len : ℕ) (src out res : List ℕ)
    → decode_loop fuel dst_len src out ≡ some res
    → Accepted dst_len src out res
unfolding decode_loop
decode_loop-Accepted zero dst_len [] out res h = ground arith
decode_loop-Accepted (suc fuel) dst_len [] out res h = ground arith
decode_loop-Accepted zero dst_len (code ∷ src) out res h = cc
decode_loop-Accepted (suc fuel) dst_len (code ∷ src) out res h =
    let ((rest, out'), stepped, after) = then_some-eq-some (decode_step dst_len code src out) _ h in
    let s = decode_step-Stepped dst_len code src out rest out' stepped in
    let r = decode_loop-Accepted fuel dst_len rest out' res after in
    record {
      within = λ w. r.within (s.within w);
      plain = (s.nonzero, s.plain r.plain);
      shorter = omega (arith, r.shorter, s.count);
      bytes = λ b o. let (b', o') = s.bytes b.1 o in r.bytes b' o';
    }

module _ (dst_len : ℕ) (x : ℕ) (src : List ℕ) where
  result_bounds :
      (r : Option (List ℕ))
      → decode_loop (suc (length src)) dst_len (x ∷ src) [] ≡ r
      → (length (or_nothing r) ≤ dst_len) × (length (or_nothing r) ≤ length src)
  result_bounds none e = omega arith
  result_bounds (some res) e =
      let a = decode_loop-Accepted (suc (length src)) dst_len (x ∷ src) [] res e in
      omega (arith, a.within (omega arith), a.shorter)

  result-NoZero :
      (r : Option (List ℕ))
      → decode_loop (suc (length src)) dst_len (x ∷ src) [] ≡ r
      → or_nothing r ≢ []
      → NoZero (x ∷ src)
  result-NoZero none e h = absurd (h refl)
  result-NoZero (some res) e h =
      (decode_loop-Accepted (suc (length src)) dst_len (x ∷ src) [] res e).plain

  result-IsBytes :
      (r : Option (List ℕ))
      → decode_loop (suc (length src)) dst_len (x ∷ src) [] ≡ r
      → IsBytes (x ∷ src)
      → IsBytes (or_nothing r)
  result-IsBytes none e h = tt
  result-IsBytes (some res) e h =
      (decode_loop-Accepted (suc (length src)) dst_len (x ∷ src) [] res e).bytes h tt

-- Whatever block it is given, `cobs_decode` writes no more bytes than the room that it was told
-- of, and fewer than the block has.
pub length-decode :
    (dst_len : ℕ) (src : List ℕ)
    → (length (decode (some dst_len) (some src)) ≤ dst_len)
      × (length (decode (some dst_len) (some src)) ≤ length src - 1)
unfolding decode
length-decode dst_len [] = omega arith
length-decode dst_len (x ∷ src) =
    let b =
      result_bounds dst_len x src (decode_loop (suc (length src)) dst_len (x ∷ src) []) refl in
    (b.0, omega (arith, b.1))

-- A block from which `cobs_decode` yields any byte at all has no zero byte.
pub decode-NoZero :
    (dst_len : ℕ) (src : List ℕ) → decode (some dst_len) (some src) ≢ [] → NoZero src
unfolding decode
decode-NoZero dst_len [] h = tt
decode-NoZero dst_len (x ∷ src) h =
    result-NoZero dst_len x src (decode_loop (suc (length src)) dst_len (x ∷ src) []) refl h

pub decode-IsBytes :
    (dst_len : ℕ) (src : List ℕ) → IsBytes src → IsBytes (decode (some dst_len) (some src))
unfolding decode
decode-IsBytes dst_len [] h = tt
decode-IsBytes dst_len (x ∷ src) h =
    result-IsBytes dst_len x src (decode_loop (suc (length src)) dst_len (x ∷ src) []) refl h
