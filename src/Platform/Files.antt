-- ===== src/Platform/Files.antt =====
-- The file system as the platform layer uses it: what the paths name, and the calls that change it.
use Prim.Native.Nat.{max}
use bm_sbc.Prelude.{
  ℕ, zero, suc, ◌+◌, ◌-◌, ◌≡◌, ◌≢◌, refl, Bool, true, false, Option, none, some, List, [], ◌∷◌,
  ◌++◌, ltb, if◌then◌else◌, length, get_or, same_text, same_text→≡, Bool-cases, inl, inr, arith,
}

abbrev pub FilePath : Type 0
FilePath = List ℕ

-- The contents of the file that a path names, if it names one.
abbrev pub Files : Type 0
Files = FilePath → Option (List ℕ)

abbrev pub update : FilePath → Option (List ℕ) → Files → Files
update p c fs q = if same_text p q then c else fs q

-- What takes effect on the files: creation or replacement of contents, `unlink`, `link`, `rename`.
pub data FileOp : Type 0 where
  put : FilePath → List ℕ → FileOp
  remove : FilePath → FileOp
  hard_link move : FilePath → FilePath → FileOp

abbrev pub exists : Option (List ℕ) → Bool
exists none = false
exists (some c) = true

unfoldable pub apply : FileOp → Files → Files
apply (put p c) fs = update p (some c) fs
apply (remove p) fs = update p none fs
apply (hard_link p q) fs = if exists (fs q) then fs else update q (fs p) fs
apply (move p q) fs = if exists (fs p) then update p none (update q (fs p) fs) else fs

unfoldable pub replay : List FileOp → Files → Files
replay [] fs = fs
replay (op ∷ ops) fs = replay ops (apply op fs)

-- What holds before, between and after the operations: at whichever of them everything stops.
abbrev pub Always : (Files → Type 0) → List FileOp → Files → Type 0
Always P [] fs = P fs
Always P (op ∷ ops) fs = P fs × Always P ops (apply op fs)

pub same_text_refl : (p : FilePath) → same_text p p ≡ true
same_text_refl [] = refl
same_text_refl (c ∷ p) = ground (arith, same_text_refl p)

pub same_text-ne : (p q : FilePath) → p ≢ q → same_text p q ≡ false
same_text-ne p q ne = elim (Bool-cases (same_text p q)) [
  | inl e ↦ absurd (ne (same_text→≡ p q e))
  | inr e ↦ e
]

pub replay-append :
    (front back : List FileOp) (fs : Files)
    → replay (front ++ back) fs ≡ replay back (replay front fs)
unfolding replay
replay-append [] back fs = refl
replay-append (op ∷ front) back fs = replay-append front back (apply op fs)

pub Always-append :
    (P : Files → Type 0) (front back : List FileOp) (fs : Files)
    → Always P front fs
    → Always P back (replay front fs)
    → Always P (front ++ back) fs
unfolding replay
Always-append P [] back fs before after = after
Always-append P (op ∷ front) back fs before after =
    (before.0, Always-append P front back (apply op fs) before.1 after)

-- Bytes written over the front of others.
unfoldable pub overwrite : List ℕ → List ℕ → List ℕ
overwrite [] old = old
overwrite (b ∷ src) [] = b ∷ overwrite src []
overwrite (b ∷ src) (x ∷ old) = b ∷ overwrite src old

-- `pwrite` and `memcpy` at an offset: a gap behind the old end is filled with zeros.
unfoldable pub splice : ℕ → List ℕ → List ℕ → List ℕ
unfolding overwrite
splice zero src old = overwrite src old
splice (suc n) src [] = 0 ∷ splice n src []
splice (suc n) src (x ∷ old) = x ∷ splice n src old

pub overwrite-byte :
    (src old : List ℕ) (i : ℕ)
    → get_or (overwrite src old) i 0
      ≡ (if ltb i (length src) then get_or src i 0 else get_or old i 0)
unfolding overwrite
overwrite-byte [] old i = ground arith
overwrite-byte (b ∷ src) [] zero = ground arith
overwrite-byte (b ∷ src) [] (suc i) = ground (arith, overwrite-byte src [] i)
overwrite-byte (b ∷ src) (x ∷ old) zero = ground arith
overwrite-byte (b ∷ src) (x ∷ old) (suc i) = ground (arith, overwrite-byte src old i)

-- The new bytes stand at the offset, and every other byte is as before; a byte behind the end is 0.
pub splice-byte :
    (off : ℕ) (src old : List ℕ) (i : ℕ)
    → get_or (splice off src old) i 0 ≡ (
        if ltb i off
        then get_or old i 0
        else if ltb i (off + length src)
        then get_or src (i - off) 0
        else get_or old i 0)
unfolding splice
splice-byte zero src old i = ground (arith, overwrite-byte src old i)
splice-byte (suc n) src [] zero = ground arith
splice-byte (suc n) src [] (suc i) = ground (arith, splice-byte n src [] i)
splice-byte (suc n) src (x ∷ old) zero = ground arith
splice-byte (suc n) src (x ∷ old) (suc i) = ground (arith, splice-byte n src old i)

pub length-overwrite :
    (src old : List ℕ) → length (overwrite src old) ≡ max (length src) (length old)
unfolding overwrite
length-overwrite [] old = omega arith
length-overwrite (b ∷ src) [] = omega (arith, length-overwrite src [])
length-overwrite (b ∷ src) (x ∷ old) = omega (arith, length-overwrite src old)

pub length-splice :
    (off : ℕ) (src old : List ℕ) → length (splice off src old) ≡ max (off + length src) (length old)
unfolding splice
length-splice zero src old = omega (arith, length-overwrite src old)
length-splice (suc n) src [] = omega (arith, length-splice n src [])
length-splice (suc n) src (x ∷ old) = omega (arith, length-splice n src old)
