-- ===== src/Uart/Cobs/Spec.antt =====
-- What byte stuffing means, with no arrays: each run of at most 254 non-zero bytes is preceded by
-- its length plus one, and a zero byte ends a run.
use bm_sbc.Prelude.{
  ℕ, suc, ◌<◌, ◌≡◌, ◌≢◌, refl, true, false, List, [], ◌∷◌, ◌++◌, ◌==◌, length, length-append, arith,
}
use native.Mathlib.Decide.{ℕ_discrete}
use bm_sbc.Uart.Cobs.{is_cons}

-- `stuff run src` is the encoding of `src` where `run` has been collected since the last code.
unfoldable pub stuff : List ℕ → List ℕ → List ℕ
stuff run [] = suc (length run) ∷ run
stuff run (x ∷ src) = elim (x == 0) [
  | true ↦ suc (length run) ∷ (run ++ stuff [] src)
  | false ↦ elim (length run == 253) [
    | true ↦ 255 ∷ ((run ++ x ∷ []) ++ elim (is_cons src) [ true ↦ stuff [] src | false ↦ [] ])
    | false ↦ stuff (run ++ x ∷ []) src
  ]
]

abbrev pub encoding : List ℕ → List ℕ
encoding src = stuff [] src

module _ (run : List ℕ) (x : ℕ) (src : List ℕ) where
  pub stuff-zero : x ≡ 0 → stuff run (x ∷ src) ≡ suc (length run) ∷ (run ++ stuff [] src)
  unfolding stuff
  stuff-zero e = ground arith

  pub stuff-full :
      x ≢ 0
      → length run ≡ 253
      → is_cons src ≡ true
      → stuff run (x ∷ src) ≡ 255 ∷ ((run ++ x ∷ []) ++ stuff [] src)
  unfolding stuff
  stuff-full n e c = ground arith

  pub stuff_full_last :
      x ≢ 0
      → length run ≡ 253
      → is_cons src ≡ false
      → stuff run (x ∷ src) ≡ 255 ∷ ((run ++ x ∷ []) ++ [])
  unfolding stuff
  stuff_full_last n e c = ground arith

  pub stuff-snoc : x ≢ 0 → length run ≢ 253 → stuff run (x ∷ src) ≡ stuff (run ++ x ∷ []) src
  unfolding stuff
  stuff-snoc n e = ground arith

stuff-is_cons : (run src : List ℕ) → is_cons (stuff run src) ≡ true
unfolding stuff
stuff-is_cons run [] = refl
stuff-is_cons run (x ∷ src) = ground (arith, stuff-is_cons (run ++ x ∷ []) src)

-- Induction along the encoding: what holds of the five ways to go on holds of every encoding.
module _ {ℓ} (P : List ℕ → List ℕ → List ℕ → Type ℓ)
    (last : (run : List ℕ) → length run < 254 → P run [] (suc (length run) ∷ run))
    (zero_next : (run src out : List ℕ)
      → length run < 254
      → is_cons out ≡ true
      → P [] src out
      → P run (0 ∷ src) (suc (length run) ∷ (run ++ out)))
    (full_last : (run : List ℕ) (x : ℕ)
      → x ≢ 0
      → length run ≡ 253
      → P run (x ∷ []) (255 ∷ ((run ++ x ∷ []) ++ [])))
    (full_next : (run : List ℕ) (x : ℕ) (src out : List ℕ)
      → x ≢ 0
      → length run ≡ 253
      → P [] src out
      → P run (x ∷ src) (255 ∷ ((run ++ x ∷ []) ++ out)))
    (snoc_next : (run : List ℕ) (x : ℕ) (src out : List ℕ)
      → x ≢ 0
      → length run < 253
      → P (run ++ x ∷ []) src out
      → P run (x ∷ src) out) where
  full_cases :
      (run : List ℕ) (x : ℕ) (src : List ℕ)
      → x ≢ 0
      → length run ≡ 253
      → P [] src (stuff [] src)
      → P run (x ∷ src) (stuff run (x ∷ src))
  full_cases run x [] n f ih = rw (stuff_full_last run x [] n f refl) (full_last run x n f)
  full_cases run x (y ∷ src) n f ih =
      rw (stuff-full run x (y ∷ src) n f refl) (full_next run x (y ∷ src) _ n f ih)

  pub stuff_induction : (src run : List ℕ) → length run < 254 → P run src (stuff run src)
  stuff_induction [] run h = unfold stuff in last run h
  stuff_induction (x ∷ src) run h = elim (ℕ_discrete x 0) [
    | yes e ↦
        rw (stuff-zero run x src e, e)
          (zero_next run src _ h (stuff-is_cons [] src) (stuff_induction src [] (omega arith)))
    | no n ↦ elim (ℕ_discrete (length run) 253) [
      | yes f ↦ full_cases run x src n f (stuff_induction src [] (omega arith))
      | no g ↦ rw (stuff-snoc run x src n g) (
          snoc_next run x src _ n (omega arith)
            (stuff_induction src (run ++ x ∷ []) (omega (arith, length-append run (x ∷ [])))))
    ]
  ]
