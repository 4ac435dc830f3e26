-- ===== src/Prelude/Digits.antt =====
-- The recursion on binary digits under the bit operations.
use Prim.Native.Nat.{ℕ, zero, suc, ◌+◌, ◌*◌, ◌/◌, ◌%◌, ◌≤◌, digits}
use mathlib.Core.Path.{◌≡◌, refl, ap}
use native.Mathlib.Omega.{arith}

module _ (last : ℕ → ℕ) (op : ℕ → ℕ → ℕ) where
  no_digits : (fuel y : ℕ) → digits last op fuel 0 y ≡ last y
  no_digits zero y = refl
  no_digits (suc fuel) y = refl

  -- As many digits as the number itself are enough.
  pub digits_surplus :
      (bits fuel x y : ℕ)
      → bits ≤ fuel
      → x ≤ bits
      → digits last op fuel x y ≡ digits last op bits x y
  digits_surplus bits fuel zero y more le = rw (no_digits fuel y, no_digits bits y) refl
  digits_surplus zero fuel (suc x) y more le = absurd (omega arith)
  digits_surplus (suc bits) zero (suc x) y more le = absurd (omega arith)
  digits_surplus (suc bits) (suc fuel) (suc x) y more le =
      ap (λ rest. rest * 2 + op (suc x % 2) (y % 2))
        (digits_surplus bits fuel (suc x / 2) (y / 2) (omega arith) (omega arith))
