-- ===== src/Platform/Config/Atomic.antt =====
-- A partition is written as a whole or not at all: src/platform/linux/platform_linux.cpp.
use bm_sbc.Prelude.{
  ℕ, ◌≡◌, ◌≢◌, ◌⊎◌, inl, refl, sym, ap, true, false, not, Bool, Option, none, some, List, [], ◌++◌,
  ◌||◌, leb, length, length-append, by_if, arith,
}
use bm_sbc.Platform.Files.{
  FilePath, Files, FileOp, apply, replay, Always, same_text_refl, same_text-ne, splice,
}
use bm_sbc.Platform.Config.{
  CfgDir, WriteCalls, commit, commit_staged, config_write, tmp_text, partition_count,
}

pub ne-tmp : (p : FilePath) → p ≢ p ++ tmp_text
ne-tmp p e = absurd (omega (arith, ap length e, length-append p tmp_text))

-- At no moment does the target hold anything but what it held before and, where the write reports
-- success, what it holds in the end; a write that fails leaves it as it was.
abbrev pub IsAtomic : Files → FilePath → Bool × List FileOp → Type 0
IsAtomic fs target r =
    Always (λ now. (now target ≡ fs target) ⊎ ((r.0 ≡ true) × (now target ≡ replay r.1 fs target)))
      r.1 fs

nothing-IsAtomic : (fs : Files) (target : FilePath) → IsAtomic fs target (false, [])
nothing-IsAtomic fs target = inl refl

commit-IsAtomic :
    (c : WriteCalls) (target : FilePath) (staging : List ℕ) (fs : Files)
    → IsAtomic fs target (commit c target staging)
unfolding commit apply replay
commit-IsAtomic c target staging fs = ground (
  arith,
  same_text_refl target,
  same_text_refl (target ++ tmp_text),
  same_text-ne (target ++ tmp_text) target (λ e. ne-tmp target (sym e)),
  same_text-ne target (target ++ tmp_text) (ne-tmp target),
)

commit-elsewhere :
    (c : WriteCalls) (target : FilePath) (staging : List ℕ) (fs : Files) (q : FilePath)
    → q ≢ target
    → q ≢ target ++ tmp_text
    → replay (commit c target staging).1 fs q ≡ fs q
unfolding commit apply replay
commit-elsewhere c target staging fs q ne ne_tmp = ground (
  arith,
  same_text_refl (target ++ tmp_text),
  same_text-ne target q (λ e. ne (sym e)),
  same_text-ne (target ++ tmp_text) q (λ e. ne_tmp (sym e)),
)

-- Both at once.
abbrev pub Confined : Files → FilePath → FilePath → Bool × List FileOp → Type 0
Confined fs target q r = IsAtomic fs target r × (replay r.1 fs q ≡ fs q)

module _ (c : WriteCalls) (s : CfgDir) (fs : Files) (partition offset : ℕ) (buffer : List ℕ) where
  abbrev target : FilePath
  target = s.cfg_paths partition

  module _ (q : FilePath) (ne : q ≢ target) (ne_tmp : q ≢ target ++ tmp_text) where
    nothing-Confined : Confined fs target q (false, [])
    unfolding replay
    nothing-Confined = (nothing-IsAtomic fs target, refl)

    commit_staged-Confined :
        (staging : Option (List ℕ))
        → Confined fs target q (commit_staged c target offset buffer staging)
    commit_staged-Confined none = nothing-Confined
    commit_staged-Confined (some staging) = (
      commit-IsAtomic c target (splice offset buffer staging) fs,
      commit-elsewhere c target (splice offset buffer staging) fs q ne ne_tmp,
    )

    pub config_write_atomic : Confined fs target q (config_write c s fs partition offset buffer)
    unfolding config_write
    config_write_atomic =
        by_if (Confined fs target q) (leb partition_count partition || _) _ _
          (λ _. nothing-Confined)
          (λ _.
            by_if (Confined fs target q) (not c.allocates) _ _ (λ _. nothing-Confined)
              (λ _. commit_staged-Confined _))
