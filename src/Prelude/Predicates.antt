-- ===== src/Prelude/Predicates.antt =====
-- Predicates on all entries of a list, by recursion.
use Prim.Native.Nat.{ℕ, ◌<◌}
use mathlib.Core.List.{List, [], ◌∷◌, ◌++◌}

module _ {ℓ κ} {A : Type ℓ} (Holds : A → Type κ) where
  abbrev pub All : List A → Type κ
  All [] = Unit
  All (x ∷ xs) = Holds x × All xs

-- The contents of an array of `uint8_t`.
abbrev pub IsBytes : List ℕ → Type 0
IsBytes xs = All (λ x. x < 256) xs

-- No entry is the byte 0.
abbrev pub NoZero : List ℕ → Type 0
NoZero xs = All (λ x. 0 < x) xs

module _ {ℓ κ} {A : Type ℓ} (P : A → Type κ) where
  pub All-append : (front back : List A) → All P front → All P back → All P (front ++ back)
  All-append [] back in_front in_back = in_back
  All-append (x ∷ front) back in_front in_back =
      (in_front.0, All-append front back in_front.1 in_back)

  pub All-append_left : (xs ys : List A) → All P (xs ++ ys) → All P xs
  All-append_left [] ys h = tt
  All-append_left (x ∷ xs) ys h = (h.0, All-append_left xs ys h.1)

  pub All-append_right : (xs ys : List A) → All P (xs ++ ys) → All P ys
  All-append_right [] ys h = h
  All-append_right (x ∷ xs) ys h = All-append_right xs ys h.1
