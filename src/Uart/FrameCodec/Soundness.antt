-- ===== src/Uart/FrameCodec/Soundness.antt =====
-- A frame that `frame_decode` yields stood in the block with its own length and checksum.
use mathlib.Core.Path.{subst, ap₂}
use bm_sbc.Prelude.{
  ℕ, ◌+◌, ◌*◌, ◌≤◌, ◌<◌, ◌≡◌, refl, ap, sym, ◌∙◌, some, List, [], ◌∷◌, ◌++◌, length, get_or,
  get_or-append, take, drop, length-take, length-drop, take-append-drop, take-append, IsBytes,
  All-append_right, arith,
}
use bm_sbc.Uart.Cobs.{decode}
use bm_sbc.Uart.Cobs.Decode.{decode-IsBytes}
use bm_sbc.Uart.Crc32c.{crc32c}
use bm_sbc.Uart.FrameCodec.{
  max_l2_size, crc_input, crc_bytes, payload, length_field, word_at, open_block, frame_decode,
}
use bm_sbc.Uart.FrameCodec.BigEndian.{two_bytes, four_bytes}

-- The tests that a block has passed.
record Opened (l2_len : ℕ) (decoded l2 : List ℕ) : Type 0 where
  bounds :
      (0 < length_field decoded)
      × (length_field decoded ≤ max_l2_size)
      × (length_field decoded ≤ l2_len)
  size : length decoded ≡ 2 + length_field decoded + 4
  checksum :
      crc32c (take (2 + length_field decoded) decoded) ≡ word_at decoded (2 + length_field decoded)
  frame : l2 ≡ take (length_field decoded) (drop 2 decoded)

open_block-Opened :
    (l2_len : ℕ) (decoded l2 : List ℕ)
    → open_block l2_len decoded ≡ some l2
    → Opened l2_len decoded l2
unfolding open_block
open_block-Opened l2_len decoded l2 h = ground arith

four_entries :
    (xs : List ℕ)
    → length xs ≡ 4
    → xs ≡ get_or xs 0 0 ∷ get_or xs 1 0 ∷ get_or xs 2 0 ∷ get_or xs 3 0 ∷ []
four_entries [] h = absurd (omega arith)
four_entries (a ∷ []) h = absurd (omega arith)
four_entries (a ∷ b ∷ []) h = absurd (omega arith)
four_entries (a ∷ b ∷ c ∷ []) h = absurd (omega arith)
four_entries (a ∷ b ∷ c ∷ d ∷ []) h = refl
four_entries (a ∷ b ∷ c ∷ d ∷ e ∷ xs) h = absurd (omega arith)

-- Four bytes are those of the word that they spell.
crc_bytes-word :
    (a b c d : ℕ)
    → a < 256
    → b < 256
    → c < 256
    → d < 256
    → crc_bytes (word_at (a ∷ b ∷ c ∷ d ∷ []) 0) ≡ a ∷ b ∷ c ∷ d ∷ []
unfolding word_at
crc_bytes-word a b c d ha hb hc hd = ground (arith, four_bytes a b c d hb hc hd)

word_at-append : (xs ys : List ℕ) (i : ℕ) → i ≡ length xs → word_at (xs ++ ys) i ≡ word_at ys 0
unfolding word_at
word_at-append xs ys i e = rw (
  get_or-append xs ys i 0 0 (omega arith),
  get_or-append xs ys (i + 1) 1 0 (omega arith),
  get_or-append xs ys (i + 2) 2 0 (omega arith),
  get_or-append xs ys (i + 3) 3 0 (omega arith),
)

-- A block that ends in four bytes which spell the checksum of the rest is that rest and its checksum.
closed_by_crc :
    (xs ys : List ℕ)
    → length ys ≡ 4
    → IsBytes ys
    → crc32c xs ≡ word_at ys 0
    → xs ++ ys ≡ xs ++ crc_bytes (crc32c xs)
closed_by_crc xs ys e b h =
    let b' : IsBytes (get_or ys 0 0 ∷ get_or ys 1 0 ∷ get_or ys 2 0 ∷ get_or ys 3 0 ∷ []) =
      subst IsBytes (four_entries ys e) b in
    ap (◌++◌ xs) (
      four_entries ys e
      ∙ sym (crc_bytes-word _ _ _ _ b'.0 b'.1.0 b'.1.1.0 b'.1.1.1.0)
      ∙ ap crc_bytes (ap (λ t. word_at t 0) (sym (four_entries ys e)) ∙ sym h))

module _ (x y : ℕ) (l2 tail : List ℕ) (hx : x < 256) (hy : y < 256) (size : length l2 ≡ x * 256 + y)
    (four : length tail ≡ 4) where
  header_lem : x ∷ y ∷ l2 ≡ crc_input l2
  header_lem = ap₂ (λ a b. a ∷ b ∷ l2) (omega arith) (omega arith)

  assemble :
      IsBytes tail
      → crc32c (take (2 + length l2) (x ∷ y ∷ (l2 ++ tail)))
        ≡ word_at (x ∷ y ∷ (l2 ++ tail)) (2 + length l2)
      → x ∷ y ∷ (l2 ++ tail) ≡ payload l2
  unfolding payload
  assemble b h =
      closed_by_crc (x ∷ y ∷ l2) tail four b (
        ap crc32c (sym (take-append (2 + length l2) (x ∷ y ∷ l2) tail (omega arith)))
        ∙ h
        ∙ word_at-append (x ∷ y ∷ l2) tail (2 + length l2) (omega arith))
      ∙ ap (λ t. t ++ crc_bytes (crc32c t)) header_lem

Opened-payload :
    (l2_len : ℕ) (decoded l2 : List ℕ)
    → IsBytes decoded
    → Opened l2_len decoded l2
    → (decoded ≡ payload l2) × (0 < length l2) × (length l2 ≤ max_l2_size) × (length l2 ≤ l2_len)
Opened-payload l2_len [] l2 b o = absurd (omega (arith, o.size))
Opened-payload l2_len (x ∷ []) l2 b o = absurd (omega (arith, o.size))
Opened-payload l2_len (x ∷ y ∷ rest) l2 b o =
    let n = length_field (x ∷ y ∷ rest) in
    let value : n ≡ x * 256 + y = unfold length_field in two_bytes x y b.1.0 in
    let split : rest ≡ l2 ++ drop n rest =
      sym (take-append-drop n rest) ∙ ap (λ t. t ++ drop n rest) (sym o.frame) in
    let count : length l2 ≡ n = omega (arith, ap length o.frame, length-take n rest, o.size) in
    let tail_bytes : IsBytes (drop n rest) =
      All-append_right (λ x. x < 256) l2 (drop n rest) (subst IsBytes split b.1.1) in
    let whole : x ∷ y ∷ rest ≡ x ∷ y ∷ (l2 ++ drop n rest) = ap (λ t. x ∷ y ∷ t) split in
    let checked : crc32c (take (2 + length l2) (x ∷ y ∷ rest))
        ≡ word_at (x ∷ y ∷ rest) (2 + length l2) =
      rw count o.checksum in
    (
      whole
          ∙ assemble x y l2 (drop n rest) b.0 b.1.0 (omega arith)
              (omega (arith, length-drop n rest, o.size)) tail_bytes
              (subst (λ t. crc32c (take (2 + length l2) t) ≡ word_at t (2 + length l2)) whole
                checked),
      omega (arith, o.bounds),
      omega (arith, o.bounds),
      omega (arith, o.bounds),
    )

-- A frame that `frame_decode` yields from bytes is not empty, is at most 1522 bytes long and fits
-- the caller's room; and the block unstuffs to exactly its two length bytes, the frame itself and
-- the checksum of both.
pub frame_decode_sound :
    (l2_len : ℕ) (wire l2 : List ℕ)
    → IsBytes wire
    → frame_decode (some l2_len) (some wire) ≡ some l2
    → (decode (some (2 + max_l2_size + 4)) (some wire) ≡ payload l2)
      × (0 < length l2)
      × (length l2 ≤ max_l2_size)
      × (length l2 ≤ l2_len)
unfolding frame_decode
frame_decode_sound l2_len wire l2 b h =
    Opened-payload l2_len _ l2 (decode-IsBytes _ wire b)
      (open_block-Opened l2_len _ l2 (ground arith))
