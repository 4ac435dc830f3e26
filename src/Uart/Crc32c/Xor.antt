-- ===== src/Uart/Crc32c/Xor.antt =====
-- Laws of `bit_xor` at variables, and of a mask of four bits, from the recursion on binary digits.
use Prim.Native.Nat.{bit_and, bit_xor, differ, bit_xor-bitwise, bit_and-bitwise, min}
use native.Mathlib.Nat.{pow-suc}
use bm_sbc.Prelude.{
  digits_surplus, ℕ, zero, suc, ◌+◌, ◌*◌, ◌/◌, ◌%◌, ◌^◌, ◌≤◌, ◌<◌, ◌≡◌, refl, ap, ◌∙◌, arith,
}

pub xor-zero_left : (b : ℕ) → bit_xor 0 b ≡ b
xor-zero_left b = bit_xor-bitwise 0 b

differ_bits : (x y : ℕ) → x < 2 → y < 2 → differ x y ≡ (x + y) % 2
differ_bits zero y p q = omega arith
differ_bits (suc zero) zero p q = refl
differ_bits (suc zero) (suc zero) p q = refl
differ_bits (suc zero) (suc (suc y)) p q = absurd (omega arith)
differ_bits (suc (suc x)) y p q = absurd (omega arith)

differ-digits : (a b : ℕ) → differ (a % 2) (b % 2) ≡ (a + b) % 2
differ-digits a b = differ_bits (a % 2) (b % 2) (omega arith) (omega arith) ∙ omega arith

-- One equation for the lowest digit.
pub xor_step : (a b : ℕ) → bit_xor a b ≡ (a + b) % 2 + 2 * bit_xor (a / 2) (b / 2)
xor_step zero b = omega (arith, xor-zero_left b, xor-zero_left (b / 2))
xor_step (suc a) b =
    let half : ℕ = suc a / 2 in
    omega (
      arith,
      differ-digits (suc a) b,
      digits_surplus (λ rest. rest) differ half a half (b / 2) (omega arith) (omega arith),
      bit_xor-bitwise half (b / 2),
      bit_xor-bitwise (suc a) b,
    )

xor_comm_below : (n a b : ℕ) → a ≤ n → b ≤ n → bit_xor a b ≡ bit_xor b a
xor_comm_below zero zero zero p q = refl
xor_comm_below zero (suc a) b p q = absurd (omega arith)
xor_comm_below zero zero (suc b) p q = absurd (omega arith)
xor_comm_below (suc n) a b p q = omega (
  arith,
  xor_step a b,
  xor_step b a,
  xor_comm_below n (a / 2) (b / 2) (omega arith) (omega arith),
)

pub xor_comm : (a b : ℕ) → bit_xor a b ≡ bit_xor b a
xor_comm a b = xor_comm_below (a + b) a b (omega arith) (omega arith)

pub xor-zero : (a : ℕ) → bit_xor a 0 ≡ a
xor-zero a = xor_comm a 0 ∙ xor-zero_left a

pub xor_half : (a b : ℕ) → bit_xor a b / 2 ≡ bit_xor (a / 2) (b / 2)
xor_half a b = omega (arith, xor_step a b)

pub xor_parity : (a b : ℕ) → bit_xor a b % 2 ≡ (a + b) % 2
xor_parity a b = omega (arith, xor_step a b)

xor_assoc_below :
    (n a b c : ℕ) → a ≤ n → b ≤ n → c ≤ n → bit_xor (bit_xor a b) c ≡ bit_xor a (bit_xor b c)
xor_assoc_below zero zero zero zero p q r = refl
xor_assoc_below zero (suc a) b c p q r = absurd (omega arith)
xor_assoc_below zero zero (suc b) c p q r = absurd (omega arith)
xor_assoc_below zero zero zero (suc c) p q r = absurd (omega arith)
xor_assoc_below (suc n) a b c p q r = omega (
  arith,
  xor_step (bit_xor a b) c,
  xor_step a (bit_xor b c),
  xor_parity a b,
  xor_parity b c,
  ap (λ (t : ℕ). bit_xor t (c / 2)) (xor_half a b),
  ap (λ (t : ℕ). bit_xor (a / 2) t) (xor_half b c),
  xor_assoc_below n (a / 2) (b / 2) (c / 2) (omega arith) (omega arith) (omega arith),
)

pub xor_assoc : (a b c : ℕ) → bit_xor (bit_xor a b) c ≡ bit_xor a (bit_xor b c)
xor_assoc a b c = xor_assoc_below (a + b + c) a b c (omega arith) (omega arith) (omega arith)

xor_self_below : (n a : ℕ) → a ≤ n → bit_xor a a ≡ 0
xor_self_below zero zero p = refl
xor_self_below zero (suc a) p = absurd (omega arith)
xor_self_below (suc n) a p = omega (arith, xor_step a a, xor_self_below n (a / 2) (omega arith))

pub xor_self : (a : ℕ) → bit_xor a a ≡ 0
xor_self a = xor_self_below a a (omega arith)

-- The result has no more bits than the operands.
pub xor-lt : (k a b : ℕ) → a < 2 ^ k → b < 2 ^ k → bit_xor a b < 2 ^ k
xor-lt zero zero b p q = omega (arith, xor-zero_left b)
xor-lt zero (suc a) b p q = absurd (omega arith)
xor-lt (suc k) a b p q = omega (
  arith,
  pow-suc 2 k,
  xor_step a b,
  xor-lt k (a / 2) (b / 2) (omega (arith, pow-suc 2 k)) (omega (arith, pow-suc 2 k)),
)

-- A mask of four bits.
and_step : (a b : ℕ) → bit_and a b ≡ min (a % 2) (b % 2) + 2 * bit_and (a / 2) (b / 2)
and_step zero b = omega (arith, bit_and-bitwise 0 (b / 2), bit_and-bitwise 0 b)
and_step (suc a) b =
    let half : ℕ = suc a / 2 in
    omega (
      arith,
      digits_surplus (λ rest. 0) min half a half (b / 2) (omega arith) (omega arith),
      bit_and-bitwise half (b / 2),
      bit_and-bitwise (suc a) b,
    )

and-zero_below : (n a : ℕ) → a ≤ n → bit_and a 0 ≡ 0
and-zero_below n zero h = refl
and-zero_below zero (suc a) h = absurd (omega arith)
and-zero_below (suc n) (suc a) h =
    omega (arith, and_step (suc a) 0, and-zero_below n (suc a / 2) (omega arith))

pub and_mask_four : (a : ℕ) → bit_and a 0x0F ≡ a % 16
and_mask_four a = omega (
  arith,
  and_step a 15,
  and_step (a / 2) 7,
  and_step (a / 2 / 2) 3,
  and_step (a / 2 / 2 / 2) 1,
  and-zero_below (a / 2 / 2 / 2 / 2) (a / 2 / 2 / 2 / 2) (omega arith),
)
