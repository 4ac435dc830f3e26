-- ===== src/Prelude/Text.antt =====
-- Strings of C: the bytes up to the first zero, and `strcmp(a, b) == 0` on them.
use Prim.Native.Nat.{ℕ, suc, ◌<◌}
use mathlib.Core.Path.{◌≡◌, refl}
use mathlib.Core.Bool.{Bool, true, false, ◌&&◌}
use mathlib.Core.List.{List, [], ◌∷◌}
use native.Mathlib.Omega.{arith}
use bm_sbc.Prelude.Lists.{length}
use bm_sbc.Prelude.Tests.{ltb, ◌==◌, if◌then◌else◌}

abbrev pub c_string : List ℕ → List ℕ
c_string [] = []
c_string (c ∷ cs) = let rest = c_string cs in if c == 0 then [] else c ∷ rest

abbrev pub same_text : List ℕ → List ℕ → Bool
same_text [] [] = true
same_text [] (b ∷ ys) = false
same_text (a ∷ xs) [] = false
same_text (a ∷ xs) (b ∷ ys) = (a == b) && same_text xs ys

abbrev pub is_empty {ℓ} : {A : Type ℓ} → List A → Bool
is_empty [] = true
is_empty (x ∷ xs) = false

-- `strncmp(p, text, length of text) == 0`.
unfoldable pub starts_with : List ℕ → List ℕ → Bool
starts_with [] p = true
starts_with (c ∷ cs) [] = false
starts_with (c ∷ cs) (d ∷ ds) = (c == d) && starts_with cs ds

pub same_text→≡ : (xs ys : List ℕ) → same_text xs ys ≡ true → xs ≡ ys
same_text→≡ [] [] e = refl
same_text→≡ [] (b ∷ ys) e = cc
same_text→≡ (a ∷ xs) [] e = cc
same_text→≡ (a ∷ xs) (b ∷ ys) e = ground (arith, same_text→≡ xs ys)

pub is_empty-false {ℓ} : {A : Type ℓ} (xs : List A) → 0 < length xs → is_empty xs ≡ false
is_empty-false [] h = elim h [ ]
is_empty-false (x ∷ xs) h = refl

-- Whole numbers.
pub data ℤ : Type 0 where
  pos negsuc : ℕ → ℤ

-- The numbers that a signed type of 32 bits holds.
abbrev pub in_int32 : ℤ → Bool
in_int32 (pos n) = ltb n 2147483648
in_int32 (negsuc n) = ltb n 2147483648

abbrev pub pos_part : ℤ → ℕ
pos_part (pos n) = n
pos_part (negsuc n) = 0

abbrev pub neg_part : ℤ → ℕ
neg_part (pos n) = 0
neg_part (negsuc n) = suc n
