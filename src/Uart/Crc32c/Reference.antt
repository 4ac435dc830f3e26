-- ===== src/Uart/Crc32c/Reference.antt =====
-- The nibble table computes the division by the Castagnoli polynomial, bit by bit.
use mathlib.Core.Path.{ap₂}
use Prim.Native.Nat.{bit_xor}
use bm_sbc.Prelude.{
  false, ℕ, zero, suc, ◌+◌, ◌*◌, ◌/◌, ◌%◌, ◌^◌, ◌<◌, ◌≡◌, refl, ap, ◌∙◌, sym, Bool, true, List, [],
  ◌∷◌, get_or, ◌==◌, ==_iff, ltb, ltb→lt, if◌then◌else◌, IsBytes, arith,
}
use bm_sbc.Uart.Crc32c.{table, nibble_step, byte_step, update, finalize, crc32c}
use bm_sbc.Uart.Crc32c.Xor.{
  xor_assoc, xor_comm, xor-zero, xor-zero_left, xor_self, xor_half, xor_parity, xor_step, xor-lt,
  and_mask_four,
}

abbrev pub polynomial : ℕ
polynomial = 0x82F63B78

-- One bit of the division: shift right, and subtract the polynomial if a one fell out.
unfoldable pub bit_step : ℕ → ℕ
bit_step c = if c % 2 == 1 then bit_xor (c / 2) polynomial else c / 2

abbrev pub four_bits : ℕ → ℕ
four_bits c = bit_step (bit_step (bit_step (bit_step c)))

-- A byte enters by exclusive or, and eight bits are divided out.
unfoldable pub reference_update : ℕ → List ℕ → ℕ
reference_update crc [] = crc
reference_update crc (x ∷ xs) = reference_update (four_bits (four_bits (bit_xor crc x))) xs

-- A test of the numbers under a bound, one by one.
unfoldable pub each_under : (ℕ → Bool) → ℕ → Bool
each_under test zero = true
each_under test (suc bound) =
    let below = each_under test bound in if test bound then below else false

pub each_under→holds :
    (test : ℕ → Bool) (bound i : ℕ) → i < bound → each_under test bound ≡ true → test i ≡ true
unfolding each_under
each_under→holds test zero i lt passed = absurd (omega arith)
each_under→holds test (suc bound) i lt passed = ground (arith, each_under→holds test bound i)

-- The table holds the four-bit remainders.
table_below : each_under (λ l. four_bits l == get_or table l 0) 16 ≡ true
unfolding each_under bit_step
table_below = refl

table_lem : (l : ℕ) → l < 16 → four_bits l ≡ get_or table l 0
table_lem l h = (==_iff _ _).0 (each_under→holds _ 16 l h table_below)

-- Exclusive or in an order that brings equal parts together.
xor_swap : (a b c d : ℕ) → bit_xor (bit_xor a b) (bit_xor c d) ≡ bit_xor (bit_xor a c) (bit_xor b d)
xor_swap a b c d =
    xor_assoc a b (bit_xor c d)
    ∙ ap (bit_xor a)
        (sym (xor_assoc b c d) ∙ ap (λ t. bit_xor t d) (xor_comm b c) ∙ xor_assoc c b d)
    ∙ sym (xor_assoc a c (bit_xor b d))

abbrev subtracted : ℕ → ℕ
subtracted c = if c % 2 == 1 then polynomial else 0

bit_step_lem : (c : ℕ) → bit_step c ≡ bit_xor (c / 2) (subtracted c)
unfolding bit_step
bit_step_lem c = ground (arith, xor-zero (c / 2))

subtracted-xor : (a b : ℕ) → subtracted (bit_xor a b) ≡ bit_xor (subtracted a) (subtracted b)
subtracted-xor a b =
    ground
      (arith, xor_parity a b, xor-zero polynomial, xor-zero_left polynomial, xor_self polynomial)

-- The division is linear.
bit_step-xor : (a b : ℕ) → bit_step (bit_xor a b) ≡ bit_xor (bit_step a) (bit_step b)
bit_step-xor a b =
    rw
      (bit_step_lem a, bit_step_lem b, bit_step_lem (bit_xor a b), subtracted-xor a b, xor_half a b)
      (xor_swap (a / 2) (b / 2) (subtracted a) (subtracted b))

four_bits-xor : (a b : ℕ) → four_bits (bit_xor a b) ≡ bit_xor (four_bits a) (four_bits b)
four_bits-xor a b = simp bit_step-xor

bit_step_even : (h : ℕ) → bit_step (2 * h) ≡ h
unfolding bit_step
bit_step_even h = ground arith

four_bits_high : (h : ℕ) → four_bits (16 * h) ≡ h
four_bits_high h =
    let e : 16 * h ≡ 2 * (2 * (2 * (2 * h))) = omega arith in
    rw (
      e,
      bit_step_even (2 * (2 * (2 * h))),
      bit_step_even (2 * (2 * h)),
      bit_step_even (2 * h),
      bit_step_even h,
    )

xor_disjoint : (h l : ℕ) → l < 16 → bit_xor (16 * h) l ≡ 16 * h + l
xor_disjoint h l p = omega (
  arith,
  xor_step (16 * h) l,
  xor_step (16 * h / 2) (l / 2),
  xor_step (16 * h / 2 / 2) (l / 2 / 2),
  xor_step (16 * h / 2 / 2 / 2) (l / 2 / 2 / 2),
  ap (bit_xor (16 * h / 2 / 2 / 2 / 2)) {x = l / 2 / 2 / 2 / 2} {y = 0} (omega arith),
  xor-zero (16 * h / 2 / 2 / 2 / 2),
)

-- Four bits at once: what the table is for.
four_bits_lem : (c : ℕ) → four_bits c ≡ bit_xor (c / 16) (get_or table (c % 16) 0)
four_bits_lem c =
    ap four_bits (omega (arith, xor_disjoint (c / 16) (c % 16) (omega arith)))
    ∙ four_bits-xor (16 * (c / 16)) (c % 16)
    ∙ ap₂ bit_xor (four_bits_high (c / 16)) (table_lem (c % 16) (omega arith))

xor_sixteenth : (a b : ℕ) → bit_xor a b / 16 ≡ bit_xor (a / 16) (b / 16)
xor_sixteenth a b =
    let low : a / 2 / 2 / 2 / 2 ≡ a / 16 = omega arith in
    let high : b / 2 / 2 / 2 / 2 ≡ b / 16 = omega arith in
    omega (
      arith,
      xor_step a b,
      xor_step (a / 2) (b / 2),
      xor_step (a / 2 / 2) (b / 2 / 2),
      xor_step (a / 2 / 2 / 2) (b / 2 / 2 / 2),
      ap₂ bit_xor low high,
    )

nibble_step_lem :
    (crc x : ℕ) → nibble_step crc x ≡ bit_xor (crc / 16) (get_or table (bit_xor crc x % 16) 0)
unfolding nibble_step
nibble_step_lem crc x = rw (and_mask_four (bit_xor crc x))

-- A byte of the loop is eight bits of the division.
byte_step_lem : (crc x : ℕ) → x < 256 → byte_step crc x ≡ four_bits (four_bits (bit_xor crc x))
unfolding byte_step
byte_step_lem crc x h =
    rw
      (
        nibble_step_lem (nibble_step crc x) (x / 16),
        four_bits_lem (four_bits (bit_xor crc x)),
        ← half_way,
        xor_sixteenth (nibble_step crc x) (x / 16),
        no_more,
      )
      (rw (xor-zero (nibble_step crc x / 16)))
  where
    no_more : x / 16 / 16 ≡ 0
    no_more = omega arith

    entry : ℕ
    entry = get_or table (bit_xor crc x % 16) 0

    half_way : bit_xor (nibble_step crc x) (x / 16) ≡ four_bits (bit_xor crc x)
    half_way =
        ap (λ c. bit_xor c (x / 16)) (nibble_step_lem crc x)
        ∙ xor_assoc (crc / 16) entry (x / 16)
        ∙ ap (bit_xor (crc / 16)) (xor_comm entry (x / 16))
        ∙ sym (xor_assoc (crc / 16) (x / 16) entry)
        ∙ ap (λ c. bit_xor c entry) (sym (xor_sixteenth crc x))
        ∙ sym (four_bits_lem (bit_xor crc x))

update-reference : (crc : ℕ) (xs : List ℕ) → IsBytes xs → update crc xs ≡ reference_update crc xs
unfolding update reference_update
update-reference crc [] h = refl
update-reference crc (x ∷ xs) h =
    ap (λ c. update c xs) (byte_step_lem crc x h.0)
    ∙ update-reference (four_bits (four_bits (bit_xor crc x))) xs h.1

-- On bytes, `crc32c` with its table of nibbles is the division of the whole message by the
-- Castagnoli polynomial one bit at a time, from all ones and inverted at the end.
pub crc32c-reference :
    (xs : List ℕ) → IsBytes xs → crc32c xs ≡ bit_xor (reference_update 0xFFFFFFFF xs) 0xFFFFFFFF
unfolding crc32c finalize
crc32c-reference xs h = ap (λ c. bit_xor c 0xFFFFFFFF) (update-reference 0xFFFFFFFF xs h)

table-lt : (l : ℕ) → l < 16 → get_or table l 0 < 2 ^ 32
table-lt l h = ltb→lt _ _ (each_under→holds (λ i. ltb (get_or table i 0) (2 ^ 32)) 16 l h below)
  where
    below : each_under (λ i. ltb (get_or table i 0) (2 ^ 32)) 16 ≡ true
    below = unfold each_under in refl

nibble_step-lt : (crc x : ℕ) → crc < 2 ^ 32 → nibble_step crc x < 2 ^ 32
nibble_step-lt crc x h =
    rw (nibble_step_lem crc x)
      (xor-lt 32 (crc / 16) _ (omega arith) (table-lt (bit_xor crc x % 16) (omega arith)))

update-lt : (crc : ℕ) (xs : List ℕ) → crc < 2 ^ 32 → update crc xs < 2 ^ 32
unfolding update byte_step
update-lt crc [] h = h
update-lt crc (x ∷ xs) h =
    update-lt (byte_step crc x) xs
      (nibble_step-lt (nibble_step crc x) (x / 16) (nibble_step-lt crc x h))

-- The checksum is a 32-bit word.
pub crc32c-lt : (xs : List ℕ) → crc32c xs < 2 ^ 32
unfolding crc32c finalize
crc32c-lt xs = xor-lt 32 _ 0xFFFFFFFF (update-lt 0xFFFFFFFF xs (omega arith)) (omega arith)
