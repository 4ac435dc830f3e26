-- ===== src/Uart/Cobs.antt =====
-- src/transports/uart_l2/cobs.c and cobs.h: byte stuffing. `encode` patches code bytes in the
-- destination array in place; `decode` writes its output from left to right, so the output is
-- the list of the bytes written so far.
pub mod Spec
pub mod EncodeStep
pub mod Encode
pub mod DecodeStep
pub mod Decode
pub mod RoundTrip
use bm_sbc.Prelude.{
  ℕ, zero, suc, ◌+◌, ◌-◌, ◌/◌, ◌%◌, Bool, true, false, Option, none, some, List, [], ◌∷◌, ◌++◌, ltb,
  leb, ◌==◌, if◌then◌else◌, length, set, ◌&&◌,
}

-- COBS_ENCODE_MAX.
abbrev pub encode_max : ℕ → ℕ
encode_max n = n + n / 254 + 1

-- How a call on a destination array ends: it returns a value, it returns the error 0 for a full
-- buffer, or it writes outside the array, which C leaves undefined.
pub data Outcome (A : Type 0) : Type 0 where
  ok : A → Outcome A
  failed : Outcome A
  fault : Outcome A

infixl 5 ◌>>=◌
abbrev pub ◌>>=◌ : {A B : Type 0} → Outcome A → (A → Outcome B) → Outcome B
ok a >>= f = f a
failed >>= f = failed
fault >>= f = fault

-- `dst[i] = v`.
abbrev pub write : List ℕ → ℕ → ℕ → Outcome (List ℕ)
write dst i v = if ltb i (length dst) then ok (set dst i v) else fault

-- The local variables of `cobs_encode`, and the array that it writes.
pub record Enc : Type 0 where
  pub dst : List ℕ
  pub dst_idx : ℕ
  pub code_idx : ℕ
  pub code : ℕ

-- `if (dst_idx >= dst_len) return 0; dst_idx++;`
abbrev pub reserve : ℕ → Enc → Outcome Enc
reserve dst_len s =
    if leb dst_len s.dst_idx then failed else ok (record s { dst_idx = s.dst_idx + 1 })

-- `dst[code_idx] = code; code_idx = dst_idx; code = 1;`
abbrev pub close_run : Enc → Outcome Enc
close_run s = write s.dst s.code_idx s.code >>= λ dst.
    ok (record { dst = dst; dst_idx = s.dst_idx; code_idx = s.dst_idx; code = 1 })

-- `dst[dst_idx++] = src[i]; code++;`, after the test of the room left.
abbrev pub put_byte : ℕ → ℕ → Enc → Outcome Enc
put_byte dst_len x s =
    if leb dst_len s.dst_idx
    then failed
    else (write s.dst s.dst_idx x >>= λ dst. ok (record {
      dst = dst;
      dst_idx = s.dst_idx + 1;
      code_idx = s.code_idx;
      code = (s.code + 1) % 256;
    }))

-- `if (i + 1 < src_len)`, where a full run ends.
abbrev pub reserve_if : Bool → ℕ → Enc → Outcome Enc
reserve_if more dst_len s = if more then reserve dst_len s else ok s

abbrev pub end_run : Bool → ℕ → Enc → Outcome Enc
end_run more dst_len s = if s.code == 255 then (close_run s >>= reserve_if more dst_len) else ok s

-- One round of the loop, on `src[i]`; `more` is `i + 1 < src_len`.
pub encode_step : ℕ → ℕ → Bool → Enc → Outcome Enc
encode_step dst_len x more s =
    if x == 0
    then (close_run s >>= reserve dst_len)
    else (put_byte dst_len x s >>= end_run more dst_len)

abbrev pub is_cons : List ℕ → Bool
is_cons [] = false
is_cons (x ∷ xs) = true

-- The loop over the rest of the source, and the final code byte behind it.
pub encode_loop : ℕ → List ℕ → Enc → Outcome (List ℕ × ℕ)
encode_loop dst_len [] s = write s.dst s.code_idx s.code >>= λ dst. ok (dst, s.dst_idx)
encode_loop dst_len (x ∷ xs) s = encode_step dst_len x (is_cons xs) s >>= encode_loop dst_len xs

-- `cobs_encode`: the array afterwards and the returned length. A null pointer is `none`.
pub encode : Option (List ℕ) → ℕ → Option (List ℕ) → Outcome (List ℕ × ℕ)
encode none dst_len src = failed
encode (some dst) dst_len none = failed
encode (some dst) dst_len (some src) =
    reserve dst_len (record { dst = dst; dst_idx = 0; code_idx = 0; code = 1 })
    >>= encode_loop dst_len src

-- `for (j = 0; j < run; j++)`: what is left of the source, and the output; `none` is `return 0`.
pub copy_run : ℕ → List ℕ → List ℕ → Option (List ℕ × List ℕ)
copy_run zero src out = some (src, out)
copy_run (suc run) [] out = none
copy_run (suc run) (x ∷ src) out = if x == 0 then none else copy_run run src (out ++ x ∷ [])

-- `if (code < 0xFF && src_idx < src_len)`: the zero that the run stood for.
abbrev pub implied_zero : ℕ → ℕ → List ℕ → List ℕ → Option (List ℕ)
implied_zero dst_len code src out =
    if ltb code 255 && is_cons src
    then (if leb dst_len (length out) then none else some (out ++ 0 ∷ []))
    else some out

abbrev pub then_some {ℓ κ} : {A : Type ℓ} {B : Type κ} → Option A → (A → Option B) → Option B
then_some none f = none
then_some (some a) f = f a

-- The body of the `while` loop, behind `code = src[src_idx++]`.
pub decode_step : ℕ → ℕ → List ℕ → List ℕ → Option (List ℕ × List ℕ)
decode_step dst_len code src out =
    if code == 0
    then none
    else if ltb (length src) (code - 1)
    then none
    else if ltb dst_len (length out + (code - 1))
    then none
    else then_some (copy_run (code - 1) src out)
        λ r. then_some (implied_zero dst_len code r.0 r.1) λ out'. some (r.0, out')

-- `while (src_idx < src_len)`. The fuel bounds the rounds.
pub decode_loop : ℕ → ℕ → List ℕ → List ℕ → Option (List ℕ)
decode_loop fuel dst_len [] out = some out
decode_loop zero dst_len (code ∷ src) out = none
decode_loop (suc fuel) dst_len (code ∷ src) out =
    then_some (decode_step dst_len code src out) λ r. decode_loop fuel dst_len r.0 r.1

abbrev pub or_nothing : Option (List ℕ) → List ℕ
or_nothing none = []
or_nothing (some out) = out

-- `cobs_decode`: the bytes `dst[0..n)` for the returned `n`, none of them on an error.
-- A round takes at least one byte of the source, so its length is fuel enough.
pub decode : Option ℕ → Option (List ℕ) → List ℕ
decode none src = []
decode (some dst_len) none = []
decode (some dst_len) (some []) = []
decode (some dst_len) (some src) = or_nothing (decode_loop (length src) dst_len src [])
