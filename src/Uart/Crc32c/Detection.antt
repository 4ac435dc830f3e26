-- ===== src/Uart/Crc32c/Detection.antt =====
-- What the checksum is for: a message in which one byte was changed has another checksum.
use mathlib.Core.Path.{ap₂}
use Prim.Native.Nat.{bit_xor}
use native.Mathlib.Nat.{pow-suc, div-one, div-div-eq-div-mul}
use bm_sbc.Prelude.{
  ℕ, zero, suc, ◌/◌, ◌%◌, ◌^◌, ◌<◌, ◌≡◌, ◌≢◌, ap, ◌∙◌, sym, List, [], ◌∷◌, ◌++◌, IsBytes, arith,
}
use bm_sbc.Uart.Crc32c.{crc32c}
use bm_sbc.Uart.Crc32c.Xor.{
  xor_assoc, xor_comm, xor-zero, xor-zero_left, xor_self, xor_half, xor-lt,
}
use bm_sbc.Uart.Crc32c.Reference.{
  polynomial, bit_step, four_bits, reference_update, crc32c-reference,
}

xor_cancel : (a b c : ℕ) → bit_xor a c ≡ bit_xor b c → a ≡ b
xor_cancel a b c e = sym (undo a) ∙ ap (λ t. bit_xor t c) e ∙ undo b
  where
    undo : (d : ℕ) → bit_xor (bit_xor d c) c ≡ d
    undo d = xor_assoc d c c ∙ ap (bit_xor d) (xor_self c) ∙ xor-zero d

div_pow-suc : (k a : ℕ) → a / 2 ^ suc k ≡ a / 2 / 2 ^ k
div_pow-suc k a =
    ap (λ (t : ℕ). a / t) (omega (arith, pow-suc 2 k)) ∙ sym (div-div-eq-div-mul a 2 (2 ^ k))

xor_shift : (k a b : ℕ) → bit_xor a b / 2 ^ k ≡ bit_xor (a / 2 ^ k) (b / 2 ^ k)
xor_shift zero a b = omega (arith, ap₂ bit_xor (div-one a) (div-one b))
xor_shift (suc k) a b =
    div_pow-suc k (bit_xor a b)
    ∙ ap (λ (t : ℕ). t / 2 ^ k) (xor_half a b)
    ∙ xor_shift k (a / 2) (b / 2)
    ∙ sym (ap₂ bit_xor (div_pow-suc k a) (div_pow-suc k b))

-- The polynomial has its top bit set, so the bit that fell out is read off the result.
top_bit : (c : ℕ) → c < 2 ^ 32 → bit_step c / 2 ^ 31 ≡ c % 2
unfolding bit_step
top_bit c h =
    let small : c / 2 / 2 ^ 31 ≡ 0 = omega arith in
    ground (arith, xor_shift 31 (c / 2) polynomial, ap (λ t. bit_xor t 1) small, xor-zero_left 1)

halves_injective : (c d : ℕ) → c % 2 ≡ d % 2 → bit_step c ≡ bit_step d → c ≡ d
unfolding bit_step
halves_injective c d s e = ground (arith, xor_cancel (c / 2) (d / 2) polynomial)

bit_step_injective : (c d : ℕ) → c < 2 ^ 32 → d < 2 ^ 32 → bit_step c ≡ bit_step d → c ≡ d
bit_step_injective c d p q e =
    halves_injective c d (sym (top_bit c p) ∙ ap (λ (t : ℕ). t / 2 ^ 31) e ∙ top_bit d q) e

bit_step-lt : (c : ℕ) → c < 2 ^ 32 → bit_step c < 2 ^ 32
unfolding bit_step
bit_step-lt c h = ground (arith, xor-lt 32 (c / 2) polynomial)

four_bits-lt : (c : ℕ) → c < 2 ^ 32 → four_bits c < 2 ^ 32
four_bits-lt c h = bit_step-lt _ (bit_step-lt _ (bit_step-lt _ (bit_step-lt c h)))

four_bits_injective : (c d : ℕ) → c < 2 ^ 32 → d < 2 ^ 32 → four_bits c ≡ four_bits d → c ≡ d
four_bits_injective c d p q e =
    let p₁ = bit_step-lt c p in
    let q₁ = bit_step-lt d q in
    let p₂ = bit_step-lt (bit_step c) p₁ in
    let q₂ = bit_step-lt (bit_step d) q₁ in
    bit_step_injective c d p q (
      bit_step_injective (bit_step c) (bit_step d) p₁ q₁ (
        bit_step_injective (bit_step (bit_step c)) (bit_step (bit_step d)) p₂ q₂
          (bit_step_injective _ _ (bit_step-lt _ p₂) (bit_step-lt _ q₂) e)))

-- The state after a byte.
abbrev absorb : ℕ → ℕ → ℕ
absorb crc x = four_bits (four_bits (bit_xor crc x))

entered : (crc x : ℕ) → crc < 2 ^ 32 → x < 256 → bit_xor crc x < 2 ^ 32
entered crc x p h = xor-lt 32 crc x p (omega arith)

absorb-lt : (crc x : ℕ) → crc < 2 ^ 32 → x < 256 → absorb crc x < 2 ^ 32
absorb-lt crc x p h = four_bits-lt _ (four_bits-lt _ (entered crc x p h))

absorb_injective :
    (c d x y : ℕ)
    → c < 2 ^ 32
    → d < 2 ^ 32
    → x < 256
    → y < 256
    → absorb c x ≡ absorb d y
    → bit_xor c x ≡ bit_xor d y
absorb_injective c d x y p q hx hy e =
    let pc = entered c x p hx in
    let qd = entered d y q hy in
    four_bits_injective _ _ pc qd
      (four_bits_injective _ _ (four_bits-lt _ pc) (four_bits-lt _ qd) e)

reference_update_injective :
    (xs : List ℕ) (c d : ℕ)
    → IsBytes xs
    → c < 2 ^ 32
    → d < 2 ^ 32
    → reference_update c xs ≡ reference_update d xs
    → c ≡ d
unfolding reference_update
reference_update_injective [] c d h p q e = e
reference_update_injective (x ∷ xs) c d h p q e = xor_cancel c d x (
    absorb_injective c d x x p q h.0 h.0 (
      reference_update_injective xs (absorb c x) (absorb d x) h.1 (absorb-lt c x p h.0)
        (absorb-lt d x q h.0) e))

module _ (suffix : List ℕ) where
  reference_detects :
      (prefix : List ℕ) (x y crc : ℕ)
      → IsBytes (prefix ++ x ∷ suffix)
      → y < 256
      → crc < 2 ^ 32
      → reference_update crc (prefix ++ x ∷ suffix) ≡ reference_update crc (prefix ++ y ∷ suffix)
      → x ≡ y
  unfolding reference_update
  reference_detects [] x y crc h hy p e = xor_cancel x y crc (
      xor_comm x crc
      ∙ absorb_injective crc crc x y p p h.0 hy (
          reference_update_injective suffix (absorb crc x) (absorb crc y) h.1
            (absorb-lt crc x p h.0) (absorb-lt crc y p hy) e)
      ∙ xor_comm crc y)
  reference_detects (z ∷ prefix) x y crc h hy p e =
      reference_detects prefix x y (absorb crc z) h.1 hy (absorb-lt crc z p h.0) e

replace-IsBytes :
    (prefix : List ℕ) (x y : ℕ) (suffix : List ℕ)
    → IsBytes (prefix ++ x ∷ suffix)
    → y < 256
    → IsBytes (prefix ++ y ∷ suffix)
replace-IsBytes [] x y suffix h hy = (hy, h.1)
replace-IsBytes (z ∷ prefix) x y suffix h hy = (h.0, replace-IsBytes prefix x y suffix h.1 hy)

-- Two messages of bytes that differ in exactly one byte, wherever it stands, have different
-- checksums.
pub crc32c_detects_one_byte :
    (prefix : List ℕ) (x y : ℕ) (suffix : List ℕ)
    → IsBytes (prefix ++ x ∷ suffix)
    → y < 256
    → x ≢ y
    → crc32c (prefix ++ x ∷ suffix) ≢ crc32c (prefix ++ y ∷ suffix)
crc32c_detects_one_byte prefix x y suffix h hy ne e = ne (
    reference_detects suffix prefix x y 0xFFFFFFFF h hy (omega arith) (
      xor_cancel _ _ 0xFFFFFFFF (
        sym (crc32c-reference _ h)
        ∙ e
        ∙ crc32c-reference _ (replace-IsBytes prefix x y suffix h hy))))
