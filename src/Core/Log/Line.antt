-- ===== src/Core/Log/Line.antt =====
-- The lines that the logger writes.
use mathlib.Core.Path.{subst}
use bm_sbc.Prelude.{
  ℕ, zero, suc, ◌+◌, ◌-◌, ◌<◌, ◌≡◌, refl, ap, ◌∙◌, List, [], ◌∷◌, ◌++◌, append_assoc, leb, length,
  length-append, length-set, length-take, set, take, get_or, get_or-append, by_if, arith,
}
use bm_sbc.Core.Log.{line_size, fit_line, log_line, level_name, message}

get_or-set : (xs : List ℕ) (i v d : ℕ) → i < length xs → get_or (set xs i v) i d ≡ v
get_or-set [] i v d h = absurd (omega arith)
get_or-set (x ∷ xs) zero v d h = refl
get_or-set (x ∷ xs) (suc i) v d h = get_or-set xs i v d (omega arith)

-- A line that fits its array with its terminator, and whose last character is a newline.
abbrev pub IsLine : List ℕ → Type 0
IsLine line =
    (0 < length line) × (length line < line_size) × (get_or line (length line - 1) 0 ≡ b'\n')

abbrev LastIs : List ℕ → ℕ → Type 0
LastIs line n = (length line ≡ n + 1) × (get_or line n 0 ≡ b'\n')

ends :
    (size n : ℕ) (line : List ℕ)
    → n + 1 < size
    → LastIs line n
    → (0 < length line) × (length line < size) × (get_or line (length line - 1) 0 ≡ b'\n')
ends size n line h t =
    let len : length line ≡ n + 1 = t.0 in
    (omega arith, omega arith, ap (λ i. get_or line i 0) (omega arith) ∙ t.1)

fit_line-fits :
    (size : ℕ) (text : List ℕ)
    → 2 < size
    → let line = fit_line size (text ++ b'\n' ∷ []) in
      (0 < length line) × (length line < size) × (get_or line (length line - 1) 0 ≡ b'\n')
unfolding fit_line
fit_line-fits size text h =
    by_if {A = List ℕ}
      (λ line. (0 < length line) × (length line < size) × (get_or line (length line - 1) 0 ≡ b'\n'))
      (leb size (length (text ++ b'\n' ∷ []))) _ _
      (λ long.
        let kept : List ℕ = take (size - 1) (text ++ b'\n' ∷ []) in
        let size_kept : length kept ≡ size - 1 =
          ground (arith, length-take (size - 1) (text ++ b'\n' ∷ [])) in
        ends size (size - 2) (set kept (size - 2) b'\n') (omega arith) (
          omega (arith, length-set kept (size - 2) b'\n'),
          get_or-set kept (size - 2) b'\n' 0 (omega arith),
        ))
      (λ short.
        ends size (length text) (text ++ b'\n' ∷ [])
          (ground (arith, length-append text (b'\n' ∷ [])))
          (
            omega (arith, length-append text (b'\n' ∷ [])),
            get_or-append text (b'\n' ∷ []) (length text) 0 0 (omega arith),
          ))

-- Whatever the message, of whatever length, what is logged is one line that fits the array: it ends
-- in a newline, also where it is cut.
pub log_line-IsLine :
    (stamp : List ℕ) (level : ℕ) (prefix formatted : List ℕ)
    → IsLine (log_line stamp level prefix formatted)
unfolding log_line
log_line-IsLine stamp level prefix formatted =
    let front : List ℕ =
      stamp ++ (b' ' ∷ (level_name level ++ (b' ' ∷ (prefix ++ message formatted)))) in
    subst (λ whole. IsLine (fit_line line_size whole)) joined
      (fit_line-fits line_size front (omega arith))
  where
    joined :
        (stamp ++ (b' ' ∷ (level_name level ++ (b' ' ∷ (prefix ++ message formatted)))))
          ++ b'\n' ∷ []
        ≡ stamp
          ++ (b' ' ∷ (level_name level ++ (b' ' ∷ (prefix ++ (message formatted ++ b'\n' ∷ [])))))
    joined = rw (append_assoc stamp, append_assoc (level_name level), append_assoc prefix) refl
