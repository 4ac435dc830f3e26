-- ===== src/Platform/Image.antt =====
-- What a received program must be: the checks of src/platform/linux/platform_linux.cpp on the staging
-- file.
use bm_sbc.Prelude.{
  ℕ, ◌+◌, ◌*◌, Bool, false, Option, none, some, List, [], ◌∷◌, ◌++◌, ◌==◌, ◌&&◌, ◌||◌, leb, length,
  take, get_or, is_empty, not, same_text, starts_with,
}

-- The magic number, then the architecture in bytes 18 and 19, low byte first: EM_AARCH64.
unfoldable pub is_elf : List ℕ → Bool
is_elf hdr =
    leb 20 (length hdr)
    && (same_text (take 4 hdr) (127 ∷ b'E' ∷ b'L' ∷ b'F' ∷ [])
        && get_or hdr 18 0 + 256 * get_or hdr 19 0 == 183)

-- `memmem`: whether the needle occurs.
unfoldable pub occurs : List ℕ → List ℕ → Bool
unfolding starts_with
occurs needle [] = starts_with needle []
occurs needle (c ∷ cs) = starts_with needle (c ∷ cs) || occurs needle cs

abbrev pub image_text : List ℕ
image_text =
    b'B' ∷ b'M' ∷ b'_' ∷ b'S' ∷ b'B' ∷ b'C' ∷ b'_' ∷ b'I' ∷ b'M' ∷ b'A' ∷ b'G' ∷ b'E' ∷ b':' ∷ []

-- What the calls on the staging file return; `reads` bounds the bytes that `fread` gives.
pub record ImageCalls : Type 0 where
  pub opens : Bool
  pub reads : ℕ
  pub opens_again : Bool
  pub stats : Bool
  pub maps : Bool

unfoldable pub validate_staging_elf : ImageCalls → Option (List ℕ) → Bool
unfolding is_elf
validate_staging_elf c none = false
validate_staging_elf c (some image) = c.opens && is_elf (take c.reads (take 20 image))

unfoldable pub validate_staging_marker : ImageCalls → List ℕ → Option (List ℕ) → Bool
unfolding occurs
validate_staging_marker c app_name none = false
validate_staging_marker c app_name (some image) =
    c.opens_again
    && (c.stats
        && (not (is_empty image) && (c.maps && occurs (take 63 (image_text ++ app_name)) image)))
