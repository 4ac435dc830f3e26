-- ===== src/Platform/Config/Staging.antt =====
-- What a write leaves in the file: src/platform/linux/platform_linux.cpp.
use Prim.Native.Nat.{max}
use bm_sbc.Prelude.{
  is_empty-false, ℕ, zero, suc, ◌+◌, ◌-◌, ◌≤◌, ◌<◌, ◌≡◌, inl, inr, refl, sym, ap, ◌∙◌, true, Option,
  none, some, List, [], ◌∷◌, ◌++◌, append-nil, ltb, ltb→lt, ◌&&◌, if◌then◌else◌, length,
  length-append, length-take, length-drop, length-replicate, take, drop, take-length,
  take-append-drop, get_or, get_or-take, get_or-behind, get_or-replicate, get_or-append,
  get_or-front, replicate, Bool-cases, arith,
}
use bm_sbc.Platform.Files.{
  FilePath, Files, apply, replay, same_text_refl, same_text-ne, overwrite, splice, splice-byte,
  length-splice,
}
use bm_sbc.Platform.Config.{
  CfgDir, ReadCalls, contents, fit, raw, WriteCalls, stage, staged, old_bytes, commit, config_write,
  tmp_text,
}
use bm_sbc.Platform.Config.Atomic.{ne-tmp}

pub length-fit : (n : ℕ) (bytes : List ℕ) → length (fit n bytes) ≡ n
unfolding fit
length-fit n bytes = omega (
  arith,
  length-append (take n bytes) (replicate (n - length bytes) 0),
  length-take n bytes,
  length-replicate {A = ℕ} (n - length bytes) 0,
)

pub fit-byte :
    (n : ℕ) (bytes : List ℕ) (i : ℕ)
    → get_or (fit n bytes) i 0 ≡ (if ltb i n then get_or bytes i 0 else 0)
unfolding fit
fit-byte n bytes i =
    let zeros : List ℕ = replicate (n - length bytes) 0 in
    ground (
      arith,
      get_or-front (take n bytes) zeros i 0,
      get_or-append (take n bytes) zeros i (i - length (take n bytes)) 0,
      get_or-replicate {A = ℕ} (n - length bytes) (i - length (take n bytes)) 0,
      get_or-take n bytes i 0,
      get_or-behind bytes i 0,
      get_or-behind (take n bytes ++ zeros) i 0,
      length-take n bytes,
      length-fit n bytes,
    )

-- Every call succeeds, and no read or write is cut short.
pub record ReadsWell (c : ReadCalls) (n : ℕ) : Type 0 where
  pub opens : c.opens ≡ true
  pub seeks : c.seeks ≡ true
  pub reads : n ≤ c.reads

pub record WritesWell (c : WriteCalls) (old final : ℕ) : Type 0 where
  pub allocates : c.allocates ≡ true
  pub opens_old : c.opens_old ≡ true
  pub reads_old : old ≤ c.reads_old
  pub seeks_end : c.seeks_end ≡ true
  pub reallocates : c.reallocates ≡ true
  pub seeks_tail : c.seeks_tail ≡ true
  pub reads_tail : old ≤ c.reads_tail
  pub opens_tmp : c.opens_tmp ≡ true
  pub writes : max old final ≤ c.writes
  pub syncs : c.syncs ≡ true
  pub closes : c.closes ≡ true
  pub renames : c.renames ≡ true

overwrite-whole : (src old : List ℕ) → length old ≤ length src → overwrite src old ≡ src
unfolding overwrite
overwrite-whole [] [] h = refl
overwrite-whole [] (x ∷ old) h = absurd (omega arith)
overwrite-whole (b ∷ src) [] h = ap (◌∷◌ b) (overwrite-whole src [] (omega arith))
overwrite-whole (b ∷ src) (x ∷ old) h = ap (◌∷◌ b) (overwrite-whole src old (omega arith))

length-raw : (heap : ℕ → ℕ) (n : ℕ) → length (raw heap n) ≡ n
unfolding raw
length-raw heap zero = refl
length-raw heap (suc n) = ap suc (length-raw heap n)

fit-long : (n : ℕ) (bytes : List ℕ) → n ≤ length bytes → fit n bytes ≡ take n bytes
unfolding fit
fit-long n bytes h =
    ap (λ k. take n bytes ++ replicate k 0) {x = n - length bytes} {y = 0} (omega arith)
    ∙ append-nil (take n bytes)

-- A file that is longer than the write keeps its tail; a shorter one is filled up.
module _ (c : WriteCalls) (final : ℕ) (old : List ℕ) (well : WritesWell c (length old) final) where
  stage_lem : stage c final old ≡ some (if ltb final (length old) then old else fit final old)
  unfolding stage
  stage_lem = elim (Bool-cases (ltb final (length old))) [
    | inl longer ↦
        rw (well.seeks_end, longer, well.reallocates, well.seeks_tail)
          (ap some (
            rw
              (
                take-length c.reads_old old well.reads_old,
                fit-long final old (omega (arith, ltb→lt final (length old) longer)),
                take-length c.reads_tail (drop final old)
                    (omega (arith, length-drop final old, well.reads_tail)),
                overwrite-whole (drop final old) (raw c.heap (length old - final))
                    (omega (arith, length-raw c.heap (length old - final), length-drop final old)),
              )
              (take-append-drop final old)))
    | inr shorter ↦ rw (well.seeks_end, shorter, take-length c.reads_old old well.reads_old) refl
  ]

abbrev bytes_of : Option (List ℕ) → List ℕ
bytes_of none = []
bytes_of (some staging) = staging

-- The staging buffer has a byte for each of the file and of the write, and holds the file.
module _ (c : WriteCalls) (final : ℕ) where
  staged_lem :
      (file : Option (List ℕ))
      → WritesWell c (length (contents file)) final
      → (staging : List ℕ) × (staged c final (old_bytes c.opens_old file) ≡ some staging)
        × (length staging ≡ max final (length (contents file)))
        × ((i : ℕ) → get_or staging i 0 ≡ get_or (contents file) i 0)
  staged_lem none well = (
    replicate final 0,
    ap (λ b. staged c final (old_bytes b none)) well.opens_old,
    omega (arith, length-replicate {A = ℕ} final 0),
    λ i. get_or-replicate final i 0,
  )
  staged_lem (some old) well =
      let longer = ltb final (length old) in
      (
        (if longer then old else fit final old),
        ap (λ b. staged c final (old_bytes b (some old))) well.opens_old
            ∙ stage_lem c final old well,
        ground (arith, length-fit final old),
        λ i. ground (arith, fit-byte final old i, get_or-behind old i 0),
      )

commit_lem :
    (c : WriteCalls) (target : FilePath) (staging : List ℕ) (fs : Files)
    → length staging ≤ c.writes
    → (c.opens_tmp && (c.syncs && (c.closes && c.renames))) ≡ true
    → let r = commit c target staging in (r.0 ≡ true) × (replay r.1 fs target ≡ some staging)
unfolding commit replay apply
commit_lem c target staging fs writes well = ground (
  arith,
  same_text_refl target,
  same_text_refl (target ++ tmp_text),
  same_text-ne (target ++ tmp_text) target (λ e. ne-tmp target (sym e)),
)

module _ (c : WriteCalls) (s : CfgDir) (fs : Files) (partition offset : ℕ) (buffer : List ℕ) where
  abbrev pub target : FilePath
  target = s.cfg_paths partition

  config_write-commit :
      s.cfg_dir_set ≡ true
      → partition < 3
      → 0 < length buffer
      → c.allocates ≡ true
      → (staging : List ℕ)
      → staged c (offset + length buffer) (old_bytes c.opens_old (fs target)) ≡ some staging
      → config_write c s fs partition offset buffer ≡ commit c target (splice offset buffer staging)
  unfolding config_write
  config_write-commit is_set known filled allocates staging found =
      rw found (ground (arith, is_empty-false buffer filled))

  pub config_write_lem :
      s.cfg_dir_set ≡ true
      → partition < 3
      → 0 < length buffer
      → WritesWell c (length (contents (fs target))) (offset + length buffer)
      → (new : List ℕ) × ((config_write c s fs partition offset buffer).0 ≡ true)
        × (replay (config_write c s fs partition offset buffer).1 fs target ≡ some new)
        × (length new ≡ max (offset + length buffer) (length (contents (fs target))))
        × ((i : ℕ)
            → get_or new i 0 ≡ (
                if ltb i offset
                then get_or (contents (fs target)) i 0
                else if ltb i (offset + length buffer)
                then get_or buffer (i - offset) 0
                else get_or (contents (fs target)) i 0))
  config_write_lem is_set known filled well =
      let (staging, found, size, at) = staged_lem c (offset + length buffer) (fs target) well in
      let new = splice offset buffer staging in
      let runs = config_write-commit is_set known filled well.allocates staging found in
      let done =
        commit_lem c target new fs (omega (arith, length-splice offset buffer staging))
          (ground arith) in
      (
        new,
        ap (λ r. r.0) runs ∙ done.0,
        ap (λ r. replay r.1 fs target) runs ∙ done.1,
        omega (arith, length-splice offset buffer staging),
        λ i. splice-byte offset buffer staging i ∙ ground (arith, at i),
      )
