-- ===== src/Platform/Config/Persistence.antt =====
-- What is read back: src/platform/linux/platform_linux.cpp.
use native.Mathlib.Decide.{ℕ_discrete}
use bm_sbc.Prelude.{
  ℕ, ◌+◌, ◌-◌, ◌≤◌, ◌<◌, ◌≡◌, ◌≢◌, inl, inr, refl, ap, ◌∙◌, true, not, some, List, ltb, leb, ◌==◌,
  ◌&&◌, ◌||◌, if◌then◌else◌, length, length-take, length-replicate, take, drop, take-length, get_or,
  get_or-take, get_or-drop, get_or-replicate, Option-cases, by_if, arith,
}
use bm_sbc.Platform.Files.{FilePath, Files, FileOp, replay}
use bm_sbc.Platform.Config.{
  CfgDir, set_cfg_dir, ReadCalls, config_read, contents, WriteCalls, config_write,
}
use bm_sbc.Platform.Config.Layout.{path-inj, path-ne-tmp}
use bm_sbc.Platform.Config.Atomic.{config_write_atomic}
use bm_sbc.Platform.Config.Staging.{length-fit, fit-byte, ReadsWell, WritesWell, config_write_lem}

-- A byte of what a read puts into the buffer.
config_read-byte :
    (c : ReadCalls) (s : CfgDir) (fs : Files) (partition offset n i : ℕ)
    → s.cfg_dir_set ≡ true
    → partition < 3
    → ReadsWell c n
    → get_or (config_read c s fs partition offset n) i 0
      ≡ (if ltb i n then get_or (contents (fs (s.cfg_paths partition))) (offset + i) 0 else 0)
unfolding config_read
config_read-byte c s fs partition offset n i is_set known well =
    elim (Option-cases (fs (s.cfg_paths partition))) [
      | inl e ↦ rw e (ground (arith, get_or-replicate {A = ℕ} n i 0))
      | inr (old, e) ↦ rw e (
          ground (
            arith,
            take-length c.reads (take n (drop offset old)),
            length-take n (drop offset old),
            fit-byte n (take n (drop offset old)) i,
            get_or-take n (drop offset old) i 0,
            get_or-drop offset old i 0,
          ))
    ]

length-config_read :
    (c : ReadCalls) (s : CfgDir) (fs : Files) (partition offset n : ℕ)
    → length (config_read c s fs partition offset n) ≡ n
unfolding config_read
length-config_read c s fs partition offset n =
    by_if (λ (xs : List ℕ). length xs ≡ n) (not s.cfg_dir_set || _) _ _
      (λ _. length-replicate {A = ℕ} n 0)
      (λ _.
        by_if (λ (xs : List ℕ). length xs ≡ n) (not (c.opens && _)) _ _
          (λ _. length-replicate {A = ℕ} n 0)
          (λ _.
            by_if (λ (xs : List ℕ). length xs ≡ n) (not c.seeks) _ _
              (λ _. length-replicate {A = ℕ} n 0) (λ _. length-fit n _)))

module _ (dir : FilePath) (before : CfgDir) (short : length dir ≤ 495) where
  abbrev s : CfgDir
  s = set_cfg_dir (some dir) true before

  is_set : s.cfg_dir_set ≡ true
  unfolding set_cfg_dir
  is_set = refl

  module _ (c : WriteCalls) (fs : Files) (p offset : ℕ) (buffer : List ℕ) (known : p < 3)
      (filled : 0 < length buffer)
      (well : WritesWell c (length (contents (fs (s.cfg_paths p)))) (offset + length buffer)) where
    abbrev ops : List FileOp
    ops = (config_write c s fs p offset buffer).1

    same_partition :
        (place : ℕ)
        → get_or (contents (replay ops fs (s.cfg_paths p))) place 0 ≡ (
            if leb offset place && ltb place (offset + length buffer)
            then get_or buffer (place - offset) 0
            else get_or (contents (fs (s.cfg_paths p))) place 0)
    same_partition place =
        let (new, done, found, size, at) =
          config_write_lem c s fs p offset buffer is_set known filled well in
        ap (λ file. get_or (contents file) place 0) found ∙ (at place ∙ ground arith)

    other_partition : (q : ℕ) → q < 3 → q ≢ p → replay ops fs (s.cfg_paths q) ≡ fs (s.cfg_paths q)
    other_partition q other ne =
        (config_write_atomic c s fs p offset buffer (s.cfg_paths q)
          (λ e. ne (path-inj dir before short q p other known e))
          (path-ne-tmp dir before short q p)).1

    written_byte :
        (q place : ℕ)
        → q < 3
        → get_or (contents (replay ops fs (s.cfg_paths q))) place 0 ≡ (
            if p == q && (leb offset place && ltb place (offset + length buffer))
            then get_or buffer (place - offset) 0
            else get_or (contents (fs (s.cfg_paths q))) place 0)
    written_byte q place other = elim (ℕ_discrete q p) [
      | yes e ↦ rw e (same_partition place ∙ ground arith)
      | no ne ↦
          ap (λ file. get_or (contents file) place 0) (other_partition q other ne) ∙ ground arith
    ]

  -- In a directory with a name of at most 495 characters, where no call fails and none is cut short,
  -- `bm_config_write` of some bytes to a partition reports success. A read of any range of any
  -- partition then gives the new bytes where the range meets them in that partition, and everywhere
  -- else what it gave before.
  pub config_read-config_write :
      (c : WriteCalls) (d : ReadCalls) (fs : Files) (p q offset start n i : ℕ) (buffer : List ℕ)
      → p < 3
      → q < 3
      → 0 < length buffer
      → WritesWell c (length (contents (fs (s.cfg_paths p)))) (offset + length buffer)
      → ReadsWell d n
      → i < n
      → let (success, ops) = config_write c s fs p offset buffer in
        let place = start + i in
        (success ≡ true)
        × (get_or (config_read d s (replay ops fs) q start n) i 0 ≡ (
            if p == q && (leb offset place && ltb place (offset + length buffer))
            then get_or buffer (place - offset) 0
            else get_or (config_read d s fs q start n) i 0))
  config_read-config_write c d fs p q offset start n i buffer known other filled well reads inside =
      (
        (config_write_lem c s fs p offset buffer is_set known filled well).1,
        config_read-byte d s (replay (ops c fs p offset buffer known filled well) fs) q start n i
              is_set other reads
            ∙ ground (
              arith,
              written_byte c fs p offset buffer known filled well q (start + i) other,
              config_read-byte d s fs q start n i is_set other reads,
            ),
      )
