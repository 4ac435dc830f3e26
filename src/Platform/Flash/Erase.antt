-- ===== src/Platform/Flash/Erase.antt =====
-- What erasing does to the staging file: src/platform/linux/platform_linux.cpp.
use Prim.Native.Nat.{min}
use bm_sbc.Prelude.{
  ℕ, zero, suc, ◌+◌, ◌*◌, ◌-◌, ◌≤◌, ◌<◌, ◌≡◌, ◌⊎◌, refl, ap, ◌∙◌, true, false, Option, none, some,
  List, ltb, leb, ◌==◌, ◌&&◌, if◌then◌else◌, length, take, length-take, replicate, length-replicate,
  get_or, get_or-replicate, get_or-take, Bool-cases, inl, inr, arith,
}
use bm_sbc.Net.Errors.{BmErr, bm_ok, bm_eio}
use bm_sbc.Platform.Files.{splice-byte}
use bm_sbc.Platform.Flash.{written, wrote_all, pwrite, erase_loop, flash_area_erase}

-- A round of zeros.
round-byte :
    (answer : Option ℕ) (cur chunk : ℕ) (image : List ℕ) (i : ℕ)
    → get_or (pwrite answer cur (replicate chunk 0) image) i 0
      ≡ (if leb cur i && ltb i (cur + min (written answer) chunk) then 0 else get_or image i 0)
unfolding pwrite
round-byte answer cur chunk image i =
    let n = min (written answer) (length (replicate {A = ℕ} chunk 0)) in
    splice-byte cur (take n (replicate {A = ℕ} chunk 0)) image i
    ∙ ground (
      arith,
      length-replicate {A = ℕ} chunk 0,
      length-take n (replicate {A = ℕ} chunk 0),
      get_or-take n (replicate {A = ℕ} chunk 0) (i - cur) 0,
      get_or-replicate {A = ℕ} chunk (i - cur) 0,
    )

-- A round of the erasing, counted from `first`, in which not all of its block is written: 256 bytes,
-- or those that are left.
pub record ShortWrite (answers : ℕ → Option ℕ) (first len : ℕ) : Type 0 where
  pub round : ℕ
  pub reached : 256 * round < len
  pub short : wrote_all (answers (first + round)) (min 256 (len - 256 * round)) ≡ false

-- A front part of the region has been set to zeros: all of it where the erasing succeeds, and else up
-- to a short write. No other byte has changed.
pub record Erased (answers : ℕ → Option ℕ) (first off len : ℕ) (image : List ℕ) (r : BmErr × List ℕ)
    : Type 0 where
  pub zeroed : ℕ
  pub within : zeroed ≤ len
  pub complete : ((r.0 ≡ bm_ok) × (zeroed ≡ len)) ⊎ ((r.0 ≡ bm_eio) × ShortWrite answers first len)
  pub bytes :
      (i : ℕ) → get_or r.1 i 0 ≡ (if leb off i && ltb i (off + zeroed) then 0 else get_or image i 0)

pub record ErasesTo (answers : ℕ → Option ℕ) (first off len : ℕ) (image : List ℕ)
    (outcome : Option (BmErr × List ℕ)) : Type 0 where
  pub result : BmErr × List ℕ
  pub returns : outcome ≡ some result
  pub erased : Erased answers first off len image result

written_all : (answer : Option ℕ) (n : ℕ) → wrote_all answer n ≡ true → written answer ≡ n
written_all none n e = cc
written_all (some k) n e = ground arith

module _ (answers : ℕ → Option ℕ) (first cur chunk remaining : ℕ) (image : List ℕ) where
  abbrev answer : Option ℕ
  answer = answers first

  later_short :
      chunk ≡ min 256 remaining
      → ShortWrite answers (suc first) (remaining - chunk)
      → ShortWrite answers first remaining
  later_short block later =
      let full : chunk ≡ 256 = omega (arith, later.reached) in
      record {
        round = suc later.round;
        reached = omega (arith, later.reached);
        short =
            ap (λ k. wrote_all (answers k) (min 256 (remaining - 256 * suc later.round)))
              {x = first + suc later.round} {y = suc first + later.round} (omega arith)
            ∙ (ap (λ n. wrote_all (answers (suc first + later.round)) (min 256 n))
                  {x = remaining - 256 * suc later.round}
                  {y = remaining - chunk - 256 * later.round} (omega arith)
                ∙ later.short);
      }

  -- A whole round, and what comes after it.
  extend :
      {outcome : Option (BmErr × List ℕ)}
      → chunk ≡ min 256 remaining
      → wrote_all answer chunk ≡ true
      → ErasesTo answers
          (suc first)
          (cur + chunk)
          (remaining - chunk)
          (pwrite answer cur (replicate chunk 0) image)
          outcome
      → ErasesTo answers first cur remaining image outcome
  extend block all rest = record {
    result = rest.result;
    returns = rest.returns;
    erased = record {
      zeroed = chunk + rest.erased.zeroed;
      within = omega (arith, rest.erased.within);
      complete = elim rest.erased.complete [
        | inl (ok, all_zero) ↦ inl (ok, omega (arith, all_zero))
        | inr (failed, later) ↦ inr (failed, later_short block later)
      ];
      bytes = λ i.
          rest.erased.bytes i
          ∙ ground (arith, round-byte answer cur chunk image i, written_all answer chunk);
    };
  }

erase_loop-ErasesTo :
    (fuel : ℕ) (answers : ℕ → Option ℕ) (round cur remaining : ℕ) (image : List ℕ)
    → remaining < fuel
    → ErasesTo answers round cur remaining image (erase_loop fuel answers round cur remaining image)
unfolding erase_loop
erase_loop-ErasesTo zero answers round cur remaining image enough = elim enough [ ]
erase_loop-ErasesTo (suc fuel) answers round cur remaining image enough =
    let chunk = if ltb remaining 256 then remaining else 256 in
    let image' = pwrite (answers round) cur (replicate chunk 0) image in
    elim (Bool-cases (remaining == 0)) [
      | inl done ↦ rw done (record {
        result = (bm_ok, image);
        returns = refl;
        erased = record {
          zeroed = 0;
          within = omega arith;
          complete = inl (refl, ground arith);
          bytes = λ i. ground arith;
        };
      })
      | inr more ↦ rw more (elim (Bool-cases (wrote_all (answers round) chunk)) [
        | inl all ↦ rw all (
            extend answers round cur chunk remaining image (ground arith) all (
              erase_loop-ErasesTo fuel answers (suc round) (cur + chunk) (remaining - chunk) image'
                (ground arith)))
        | inr short ↦ rw short (record {
          result = (bm_eio, image');
          returns = refl;
          erased = record {
            zeroed = min (written (answers round)) chunk;
            within = ground arith;
            complete = inr (
              refl,
              record {
                round = 0;
                reached = ground arith;
                short =
                    ap (λ k. wrote_all (answers k) (min 256 (remaining - 256 * 0))) {x = round + 0}
                      {y = round} (omega arith)
                    ∙ (ap (wrote_all (answers round)) {x = min 256 (remaining - 256 * 0)}
                          {y = chunk} (ground arith)
                        ∙ short);
              },
            );
            bytes = round-byte (answers round) cur chunk image;
          };
        })
      ])
    ]

-- Erasing a region of an open area, whatever the writes return: the loop ends; a front part of the
-- region holds zeros, which is all of it if success is reported; and no other byte has changed.
pub flash_area_erase-ErasesTo :
    (answers : ℕ → Option ℕ) (off len fd : ℕ) (image : List ℕ)
    → ErasesTo answers 0 off len image (flash_area_erase answers off len (some fd) image)
unfolding flash_area_erase
flash_area_erase-ErasesTo answers off len fd image =
    erase_loop-ErasesTo (len + 1) answers 0 off len image (omega arith)
