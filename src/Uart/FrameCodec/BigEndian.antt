-- ===== src/Uart/FrameCodec/BigEndian.antt =====
-- `|` of shifted bytes is a sum, so the big-endian fields come back as they were written.
use Prim.Native.Nat.{bit_or, bit_or-bitwise, max}
use native.Mathlib.Nat.{pow-suc}
use bm_sbc.Prelude.{
  digits_surplus, ℕ, zero, suc, ◌+◌, ◌*◌, ◌/◌, ◌%◌, ◌^◌, ◌≤◌, ◌<◌, ◌≡◌, refl, ap, arith,
}

-- One equation for the lowest digit.
or_step : (a b : ℕ) → bit_or a b ≡ max (a % 2) (b % 2) + 2 * bit_or (a / 2) (b / 2)
or_step zero b = omega (arith, bit_or-bitwise 0 (b / 2), bit_or-bitwise 0 b)
or_step (suc a) b =
    let half : ℕ = suc a / 2 in
    omega (
      arith,
      digits_surplus (λ rest. rest) max half a half (b / 2) (omega arith) (omega arith),
      bit_or-bitwise half (b / 2),
      bit_or-bitwise (suc a) b,
    )

or-zero_below : (n a : ℕ) → a ≤ n → bit_or a 0 ≡ a
or-zero_below n zero h = refl
or-zero_below zero (suc a) h = absurd (omega arith)
or-zero_below (suc n) (suc a) h =
    omega (arith, or_step (suc a) 0, or-zero_below n (suc a / 2) (omega arith))

or_disjoint : (k q r : ℕ) → r < 2 ^ k → bit_or (q * 2 ^ k) r ≡ q * 2 ^ k + r
or_disjoint zero q zero h = omega (arith, or-zero_below (q * 1) (q * 1) (omega arith))
or_disjoint zero q (suc r) h = absurd (omega arith)
or_disjoint (suc k) q r h =
    let e : q * 2 ^ suc k ≡ 2 * (q * 2 ^ k) = omega (arith, ap (λ (t : ℕ). q * t) (pow-suc 2 k)) in
    omega (
      arith,
      or_step (q * 2 ^ suc k) r,
      pow-suc 2 k,
      e,
      ap (λ (t : ℕ). bit_or t (r / 2)) {x = q * 2 ^ suc k / 2} {y = q * 2 ^ k} (omega arith),
      or_disjoint k q (r / 2) (omega (arith, pow-suc 2 k)),
    )

or_sum : (k s r q : ℕ) → s ≡ q * 2 ^ k → r < 2 ^ k → bit_or s r ≡ s + r
or_sum k s r q e h = rw e (or_disjoint k q r h)

pub two_bytes : (a b : ℕ) → b < 256 → bit_or (a * 2 ^ 8) b ≡ a * 256 + b
two_bytes a b h = or_disjoint 8 a b h

pub four_bytes :
    (a b c d : ℕ)
    → b < 256
    → c < 256
    → d < 256
    → bit_or (bit_or (bit_or (a * 2 ^ 24) (b * 2 ^ 16)) (c * 2 ^ 8)) d
      ≡ a * 2 ^ 24 + b * 2 ^ 16 + c * 2 ^ 8 + d
four_bytes a b c d hb hc hd =
    rw (or_sum 24 (a * 2 ^ 24) (b * 2 ^ 16) a (omega arith) (omega arith)) (
      rw (or_sum 16 (a * 2 ^ 24 + b * 2 ^ 16) (c * 2 ^ 8) (a * 256 + b) (omega arith) (omega arith))
        (or_sum 8 (a * 2 ^ 24 + b * 2 ^ 16 + c * 2 ^ 8) d (a * 2 ^ 16 + b * 2 ^ 8 + c) (omega arith)
          (omega arith)))
