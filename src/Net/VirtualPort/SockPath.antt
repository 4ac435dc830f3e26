-- ===== src/Net/VirtualPort/SockPath.antt =====
-- VIRTUAL_PORT_SOCK_FMT: where the socket of a node lies.
use mathlib.Core.Path.{ap₂}
use native.Mathlib.Nat.{pow-suc}
use bm_sbc.Prelude.{
  ℕ, zero, suc, ◌+◌, ◌-◌, ◌/◌, ◌%◌, ◌^◌, ◌≤◌, ◌<◌, ◌≡◌, refl, ap, sym, ◌∙◌, List, [], ◌∷◌, ◌++◌,
  ltb, if◌then◌else◌, length, length-append, take, take-length, NoZero, All-append, arith,
}

unfoldable pub hex_digit : ℕ → ℕ
hex_digit d = if ltb d 10 then b'0' + d else b'a' + (d - 10)

-- The lowest `n` hexadecimal digits, the highest first.
unfoldable pub hex_digits : ℕ → ℕ → List ℕ
hex_digits zero x = []
hex_digits (suc n) x = hex_digits n (x / 16) ++ hex_digit (x % 16) ∷ []

abbrev pub name_start : List ℕ
name_start = b'/' ∷ b'b' ∷ b'm' ∷ b'_' ∷ b's' ∷ b'b' ∷ b'c' ∷ b'_' ∷ []

abbrev pub name_end : List ℕ
name_end = b'.' ∷ b's' ∷ b'o' ∷ b'c' ∷ b'k' ∷ []

-- `snprintf` into VIRTUAL_PORT_SOCK_PATH_LEN bytes, the last of which is the terminator.
pub sock_path : List ℕ → ℕ → List ℕ
sock_path dir node_id = take 107 (dir ++ (name_start ++ (hex_digits 16 node_id ++ name_end)))

pub length-hex_digits : (n x : ℕ) → length (hex_digits n x) ≡ n
unfolding hex_digits
length-hex_digits zero x = refl
length-hex_digits (suc n) x = omega (
  arith,
  length-append (hex_digits n (x / 16)) (hex_digit (x % 16) ∷ []),
  length-hex_digits n (x / 16),
)

hex_digit_injective : (a b : ℕ) → a < 16 → b < 16 → hex_digit a ≡ hex_digit b → a ≡ b
unfolding hex_digit
hex_digit_injective a b p q e = ground arith

pub append_split : (a b c d : List ℕ) → length a ≡ length b → a ++ c ≡ b ++ d → (a ≡ b) × (c ≡ d)
append_split [] [] c d l e = (refl, e)
append_split [] (y ∷ b) c d l e = absurd (omega arith)
append_split (x ∷ a) [] c d l e = absurd (omega arith)
append_split (x ∷ a) (y ∷ b) c d l e =
    let tails : a ++ c ≡ b ++ d = cc in
    let heads : x ≡ y = cc in
    let r = append_split a b c d (omega arith) tails in (ap₂ ◌∷◌ heads r.0, r.1)

pub hex_digits_injective :
    (n x y : ℕ) → x < 16 ^ n → y < 16 ^ n → hex_digits n x ≡ hex_digits n y → x ≡ y
unfolding hex_digits
hex_digits_injective zero x y p q e = omega arith
hex_digits_injective (suc n) x y p q e =
    let parts =
      append_split (hex_digits n (x / 16)) (hex_digits n (y / 16)) _ _
        (length-hex_digits n (x / 16) ∙ sym (length-hex_digits n (y / 16))) e in
    let low : hex_digit (x % 16) ≡ hex_digit (y % 16) = cc (parts.1) in
    omega (
      arith,
      hex_digits_injective n (x / 16) (y / 16) (omega (arith, pow-suc 16 n))
          (omega (arith, pow-suc 16 n)) parts.0,
      hex_digit_injective (x % 16) (y % 16) (omega arith) (omega arith) low,
    )

hex_digit-positive : (d : ℕ) → 0 < hex_digit d
unfolding hex_digit
hex_digit-positive d = ground arith

pub hex_digits-NoZero : (n x : ℕ) → NoZero (hex_digits n x)
unfolding hex_digits
hex_digits-NoZero zero x = tt
hex_digits-NoZero (suc n) x =
    All-append (λ c. 0 < c) (hex_digits n (x / 16)) (hex_digit (x % 16) ∷ [])
      (hex_digits-NoZero n (x / 16)) (hex_digit-positive (x % 16), tt)

abbrev whole_path : List ℕ → ℕ → List ℕ
whole_path dir node_id = dir ++ (name_start ++ (hex_digits 16 node_id ++ name_end))

length-whole_path : (dir : List ℕ) (node_id : ℕ) → length (whole_path dir node_id) ≡ length dir + 29
length-whole_path dir node_id = omega (
  arith,
  length-append dir (name_start ++ (hex_digits 16 node_id ++ name_end)),
  length-append name_start (hex_digits 16 node_id ++ name_end),
  length-append (hex_digits 16 node_id) name_end,
  length-hex_digits 16 node_id,
)

sock_path_whole :
    (dir : List ℕ) (node_id : ℕ) → length dir ≤ 78 → sock_path dir node_id ≡ whole_path dir node_id
unfolding sock_path
sock_path_whole dir node_id h =
    take-length 107 (whole_path dir node_id) (omega (arith, length-whole_path dir node_id))

-- In a directory of at most 78 characters the path of a socket fits its buffer whole, and two nodes
-- with different 64-bit identities have different paths.
pub sock_path_injective :
    (dir : List ℕ) (a b : ℕ)
    → length dir ≤ 78
    → a < 2 ^ 64
    → b < 2 ^ 64
    → (sock_path dir a ≡ sock_path dir b → a ≡ b) × (length (sock_path dir a) ≡ length dir + 29)
sock_path_injective dir a b h p q = (
  λ e.
      let whole = sym (sock_path_whole dir a h) ∙ (e ∙ sock_path_whole dir b h) in
      let names = append_split dir dir _ _ refl whole in
      let digits = append_split name_start name_start _ _ refl names.1 in
      let parts =
        append_split (hex_digits 16 a) (hex_digits 16 b) _ _
          (length-hex_digits 16 a ∙ sym (length-hex_digits 16 b)) digits.1 in
      hex_digits_injective 16 a b p q parts.0,
  ap length (sock_path_whole dir a h) ∙ length-whole_path dir a,
)
