-- ===== src/Uart/Cobs/DecodeStep.antt =====
-- One round of `cobs_decode` of src/transports/uart_l2/cobs.c.
use mathlib.Core.Path.{subst}
use bm_sbc.Prelude.{
  ℕ, zero, suc, ◌+◌, ◌-◌, ◌≤◌, ◌<◌, ◌≡◌, ◌⊎◌, refl, ap, ◌∙◌, true, false, inl, inr, Option, none,
  some, List, [], ◌∷◌, ◌++◌, ◌==◌, if◌then◌else◌, length, length-append, append-snoc, append_assoc,
  append-nil, Bool-cases, NoZero, IsBytes, All-append, All-append_left, All-append_right, arith,
}
use bm_sbc.Uart.Cobs.{copy_run, is_cons, implied_zero, then_some, decode_step}

pub copy_run-append :
    (run rest out : List ℕ)
    → NoZero run
    → copy_run (length run) (run ++ rest) out ≡ some (rest, out ++ run)
unfolding copy_run
copy_run-append [] rest out h = ground (arith, append-nil out)
copy_run-append (x ∷ run) rest out h =
    ground (arith, copy_run-append run rest (out ++ x ∷ []), append-snoc out run x)

module _ (dst_len : ℕ) (run rest out : List ℕ) (h : NoZero run)
    (room : length out + length run ≤ dst_len) where
  pub decode_step_lem :
      decode_step dst_len (suc (length run)) (run ++ rest) out
      ≡ then_some
          (implied_zero dst_len (suc (length run)) rest (out ++ run))
          λ out'. some (rest, out')
  unfolding decode_step
  decode_step_lem = ground (arith, length-append run rest, copy_run-append run rest out h)

  -- A run of the maximum length stands for no zero, and so does the last one.
  pub decode_step_plain :
      (suc (length run) ≡ 255) ⊎ (is_cons rest ≡ false)
      → decode_step dst_len (suc (length run)) (run ++ rest) out ≡ some (rest, out ++ run)
  decode_step_plain e = ground (arith, decode_step_lem)

  pub decode_step_zero :
      length run < 254
      → is_cons rest ≡ true
      → length out + length run < dst_len
      → decode_step dst_len (suc (length run)) (run ++ rest) out
        ≡ some (rest, out ++ (run ++ 0 ∷ []))
  decode_step_zero short more space =
      ground (arith, decode_step_lem, length-append out run, append_assoc out run (0 ∷ []))

-- The parts of a successful chain.
pub then_some-eq-some {ℓ κ} :
    {A : Type ℓ} {B : Type κ} (o : Option A) (f : A → Option B) {b : B}
    → then_some o f ≡ some b
    → (a : A) × (o ≡ some a) × (f a ≡ some b)
then_some-eq-some none f h = cc
then_some-eq-some (some a) f h = (a, refl, h)

-- What a successful copy took: `run` bytes, none of them zero.
record Copied (run : ℕ) (src out rest out' : List ℕ) : Type 0 where
  part : List ℕ
  split : src ≡ part ++ rest
  joined : out' ≡ out ++ part
  count : length part ≡ run
  plain : NoZero part

copy_run-Copied :
    (run : ℕ) (src out rest out' : List ℕ)
    → copy_run run src out ≡ some (rest, out')
    → Copied run src out rest out'
unfolding copy_run
copy_run-Copied zero src out rest out' h = record {
  part = [];
  split = ground arith;
  joined = ground (arith, append-nil out);
  count = refl;
  plain = tt;
}
copy_run-Copied (suc run) [] out rest out' h = cc
copy_run-Copied (suc run) (x ∷ src) out rest out' h = elim (Bool-cases (x == 0)) [
  | inl e ↦ absurd (ground arith)
  | inr e ↦
      let c : Copied run src (out ++ x ∷ []) rest out' =
        copy_run-Copied run src (out ++ x ∷ []) rest out' (rw e at h) in
      record {
        part = x ∷ c.part;
        split = ap (◌∷◌ x) c.split;
        joined = c.joined ∙ append-snoc out c.part x;
        count = ap suc c.count;
        plain = (ground arith, c.plain);
      }
]

pub record Stepped (dst_len code : ℕ) (src out rest out' : List ℕ) : Type 0 where
  pub nonzero : 0 < code
  pub within : length out ≤ dst_len → length out' ≤ dst_len
  pub plain : NoZero rest → NoZero src
  pub count :
      length out' + length rest + 1 ≤ length out + length src + 1 + (if is_cons rest then 1 else 0)
  pub shorter : length rest ≤ length src
  pub bytes : IsBytes src → IsBytes out → IsBytes rest × IsBytes out'

step_guards :
    (dst_len code : ℕ) (src out : List ℕ) {r : List ℕ × List ℕ}
    → decode_step dst_len code src out ≡ some r
    → (0 < code)
      × (length out + (code - 1) ≤ dst_len)
      × (then_some
            (copy_run (code - 1) src out)
            (λ r. then_some (implied_zero dst_len code r.0 r.1) λ out'. some (r.0, out'))
          ≡ some r)
unfolding decode_step
step_guards dst_len code src out h = ground arith

-- The zero behind a run, if one is written.
implied_zero-length :
    (dst_len code : ℕ) (rest out out' : List ℕ)
    → implied_zero dst_len code rest out ≡ some out'
    → (length out' ≤ length out + (if is_cons rest then 1 else 0))
      × (length out ≤ length out')
      × (length out ≤ dst_len → length out' ≤ dst_len)
implied_zero-length dst_len code [] out out' h = ground arith
implied_zero-length dst_len code (x ∷ rest) out out' h = ground (arith, length-append out (0 ∷ []))

implied_zero-IsBytes :
    (dst_len code : ℕ) (rest out out' : List ℕ)
    → implied_zero dst_len code rest out ≡ some out'
    → IsBytes out
    → IsBytes out'
implied_zero-IsBytes dst_len code [] out out' h b = ground arith
implied_zero-IsBytes dst_len code (x ∷ rest) out out' h b =
    ground (arith, All-append (λ x. x < 256) out (0 ∷ []) b)

step_parts :
    (dst_len code : ℕ) (copied : Option (List ℕ × List ℕ)) (rest out' : List ℕ)
    → then_some {B = List ℕ × List ℕ} copied (λ r.
      then_some {B = List ℕ × List ℕ} (implied_zero dst_len code r.0 r.1) λ out'. some (r.0, out'))
      ≡ some (rest, out')
    → (out₁ : List ℕ) × (copied ≡ some (rest, out₁))
      × (implied_zero dst_len code rest out₁ ≡ some out')
step_parts dst_len code none rest out' h = cc
step_parts dst_len code (some (rest₁, out₁)) rest out' h = (out₁, ground arith, ground arith)

Stepped-intro :
    (dst_len code : ℕ) (src out rest out₁ out' : List ℕ)
    → 0 < code
    → length out + (code - 1) ≤ dst_len
    → Copied (code - 1) src out rest out₁
    → implied_zero dst_len code rest out₁ ≡ some out'
    → Stepped dst_len code src out rest out'
Stepped-intro dst_len code src out rest out₁ out' pos room c zeroed =
    let z = implied_zero-length dst_len code rest out₁ out' zeroed in
    let grown : length out₁ ≡ length out + length c.part =
      ap length c.joined ∙ length-append out c.part in
    let taken : length src ≡ length c.part + length rest =
      ap length c.split ∙ length-append c.part rest in
    record {
      nonzero = pos;
      within = λ _. z.2 (omega (arith, c.count));
      plain = λ n. rw c.split (All-append (λ x. 0 < x) c.part rest c.plain n);
      count = omega (arith, z.0);
      shorter = omega arith;
      bytes = λ b o.
          let b' : IsBytes (c.part ++ rest) = subst IsBytes c.split b in
          (
            All-append_right (λ x. x < 256) c.part rest b',
            implied_zero-IsBytes dst_len code rest out₁ out' zeroed (
                rw c.joined (
                  All-append (λ x. x < 256) out c.part o
                    (All-append_left (λ x. x < 256) c.part rest b'))),
          );
    }

pub decode_step-Stepped :
    (dst_len code : ℕ) (src out rest out' : List ℕ)
    → decode_step dst_len code src out ≡ some (rest, out')
    → Stepped dst_len code src out rest out'
decode_step-Stepped dst_len code src out rest out' h =
    let g = step_guards dst_len code src out h in
    let (out₁, copied, zeroed) =
      step_parts dst_len code (copy_run (code - 1) src out) rest out' g.2 in
    Stepped-intro dst_len code src out rest out₁ out' g.0 g.1
      (copy_run-Copied (code - 1) src out rest out₁ copied) zeroed
