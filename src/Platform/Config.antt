-- ===== src/Platform/Config.antt =====
-- The partitions of the configuration, a file each. What the calls in a step return is in `ReadCalls`
-- and `WriteCalls`; a size of a file is what `ftell` gives.
pub mod Layout
pub mod Atomic
pub mod Staging
pub mod Persistence
use Prim.Native.Nat.{min}
use bm_sbc.Prelude.{
  ℕ, zero, suc, ◌+◌, ◌-◌, Bool, true, false, not, Option, none, some, List, [], ◌∷◌, ◌++◌, ltb, leb,
  ◌==◌, ◌||◌, ◌&&◌, if◌then◌else◌, length, take, drop, replicate, is_empty,
}
use bm_sbc.Platform.Files.{FilePath, Files, FileOp, put, remove, move, overwrite, splice, exists}

-- BM_CFG_PARTITION_COUNT.
abbrev pub partition_count : ℕ
partition_count = 3

-- The static variables.
pub record CfgDir : Type 0 where
  pub cfg_dir : FilePath
  pub cfg_paths : ℕ → FilePath
  pub cfg_dir_set : Bool

-- "config." and ".bin".
abbrev pub config_text : List ℕ
config_text = b'c' ∷ b'o' ∷ b'n' ∷ b'f' ∷ b'i' ∷ b'g' ∷ b'.' ∷ []

abbrev pub bin_text : List ℕ
bin_text = b'.' ∷ b'b' ∷ b'i' ∷ b'n' ∷ []

-- `k_partition_filenames`.
abbrev pub partition_rest : ℕ → List ℕ
partition_rest i =
    (if i == 0
      then b'u' ∷ b's' ∷ b'e' ∷ b'r' ∷ []
      else if i == 1
      then b's' ∷ b'y' ∷ b's' ∷ []
      else b'h' ∷ b'w' ∷ [])
    ++ bin_text

unfoldable pub partition_filename : ℕ → List ℕ
partition_filename i = config_text ++ partition_rest i

-- `platform_linux_set_cfg_dir`; `is_dir` is whether `stat` finds a directory.
pub set_cfg_dir : Option FilePath → Bool → CfgDir → CfgDir
set_cfg_dir none is_dir s = s
set_cfg_dir (some dir) is_dir s = if not is_dir then s else record {
  cfg_dir = take 511 dir;
  cfg_paths = λ i. take 511 (dir ++ b'/' ∷ partition_filename i);
  cfg_dir_set = true;
}

-- Bytes padded with zeros to a length, and cut to it: `fread` into zeros.
unfoldable pub fit : ℕ → List ℕ → List ℕ
fit n bytes = take n bytes ++ replicate (n - length bytes) 0

pub record ReadCalls : Type 0 where
  pub opens : Bool
  pub seeks : Bool
  pub reads : ℕ  -- no more bytes than this

abbrev pub contents : Option (List ℕ) → List ℕ
contents none = []
contents (some bytes) = bytes

-- `bm_config_read`: what the buffer holds afterwards. It always returns true.
pub config_read : ReadCalls → CfgDir → Files → ℕ → ℕ → ℕ → List ℕ
config_read c s fs partition offset length =
    if not s.cfg_dir_set || leb partition_count partition
    then replicate length 0
    else if not (c.opens && exists (fs (s.cfg_paths partition)))
    then replicate length 0
    else if not c.seeks
    then replicate length 0
    else fit length
        (take c.reads (take length (drop offset (contents (fs (s.cfg_paths partition))))))

pub record WriteCalls : Type 0 where
  pub allocates : Bool
  pub opens_old : Bool
  pub reads_old : ℕ
  pub seeks_end : Bool
  pub reallocates : Bool
  pub seeks_tail : Bool
  pub reads_tail : ℕ
  pub heap : ℕ → ℕ  -- what `realloc` finds in the memory it adds
  pub opens_tmp : Bool
  pub writes : ℕ
  pub syncs : Bool
  pub closes : Bool
  pub renames : Bool

-- Bytes that were never set.
unfoldable pub raw : (ℕ → ℕ) → ℕ → List ℕ
raw heap zero = []
raw heap (suc n) = heap n ∷ raw heap n

-- The staging buffer before the new bytes go in; `none` where there is no memory for it.
pub stage : WriteCalls → ℕ → List ℕ → Option (List ℕ)
unfolding fit
stage c final_size old =
    let front = fit final_size (take c.reads_old old) in
    if not (c.seeks_end && ltb final_size (length old))
    then some front
    else if not c.reallocates
    then none
    else some (
        front
        ++ overwrite (if c.seeks_tail then take c.reads_tail (drop final_size old) else [])
            (raw c.heap (length old - final_size)))

abbrev pub tmp_text : List ℕ
tmp_text = b'.' ∷ b't' ∷ b'm' ∷ b'p' ∷ []

-- The temporary file, from `open` to `rename`.
pub commit : WriteCalls → FilePath → List ℕ → Bool × List FileOp
commit c target staging =
    let tmp = target ++ tmp_text in
    let written = min c.writes (length staging) in
    if not c.opens_tmp
    then (false, [])
    else if not (written == length staging)
    then (false, put tmp [] ∷ put tmp (take written staging) ∷ remove tmp ∷ [])
    else if not (c.syncs && (c.closes && c.renames))
    then (false, put tmp [] ∷ put tmp staging ∷ remove tmp ∷ [])
    else (true, put tmp [] ∷ put tmp staging ∷ move tmp target ∷ [])

abbrev pub commit_staged : WriteCalls → FilePath → ℕ → List ℕ → Option (List ℕ) → Bool × List FileOp
commit_staged c target offset buffer none = (false, [])
commit_staged c target offset buffer (some staging) = commit c target (splice offset buffer staging)

abbrev pub old_bytes : Bool → Option (List ℕ) → Option (List ℕ)
old_bytes opens file = if opens then file else none

-- Without a file to read, the staging buffer is zeros.
abbrev pub staged : WriteCalls → ℕ → Option (List ℕ) → Option (List ℕ)
staged c final_size none = some (replicate final_size 0)
staged c final_size (some old) = stage c final_size old

-- `bm_config_write`: what is returned, and what it does to the files.
pub config_write : WriteCalls → CfgDir → Files → ℕ → ℕ → List ℕ → Bool × List FileOp
config_write c s fs partition offset buffer =
    if leb partition_count partition || (is_empty buffer || not s.cfg_dir_set)
    then (false, [])
    else if not c.allocates
    then (false, [])
    else commit_staged c (s.cfg_paths partition) offset buffer
        (staged c (offset + length buffer) (old_bytes c.opens_old (fs (s.cfg_paths partition))))
