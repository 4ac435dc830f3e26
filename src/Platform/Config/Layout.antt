-- ===== src/Platform/Config/Layout.antt =====
-- Which file holds which partition: src/platform/linux/platform_linux.cpp.
use bm_sbc.Prelude.{
  ℕ, zero, suc, ◌≤◌, ◌<◌, ◌≡◌, ◌≢◌, refl, sym, ap, ◌∙◌, true, some, List, [], ◌∷◌, ◌++◌, length,
  length-append, take, take-length, drop, append_assoc, arith,
}
use bm_sbc.Platform.Files.{FilePath}
use bm_sbc.Platform.Config.{
  CfgDir, set_cfg_dir, partition_filename, config_text, partition_rest, tmp_text,
}

append_cancel : {xs ys : List ℕ} (front : List ℕ) → front ++ xs ≡ front ++ ys → xs ≡ ys
append_cancel [] e = e
append_cancel (x ∷ front) e = append_cancel front (ap (drop 1) e)

length-partition_filename : (i : ℕ) → length (partition_filename i) ≤ 15
unfolding partition_filename
length-partition_filename i = ground arith

partition_filename-inj :
    (i j : ℕ) → i < 3 → j < 3 → partition_filename i ≡ partition_filename j → i ≡ j
unfolding partition_filename
partition_filename-inj zero zero p q e = refl
partition_filename-inj zero (suc j) p q e = ground arith
partition_filename-inj (suc i) zero p q e = ground arith
partition_filename-inj (suc i) (suc j) p q e = ground arith

name_ne : (i j : ℕ) → partition_filename i ≢ partition_filename j ++ tmp_text
unfolding partition_filename
name_ne i j = ground arith

take-front : (n : ℕ) (xs ys : List ℕ) → n ≤ length xs → take n (xs ++ ys) ≡ take n xs
take-front zero xs ys h = refl
take-front (suc n) [] ys h = elim h [ ]
take-front (suc n) (x ∷ xs) ys h = ap (◌∷◌ x) (take-front n xs ys (omega arith))

module _ (dir : FilePath) (s : CfgDir) where
  abbrev pub path : ℕ → FilePath
  path = (set_cfg_dir (some dir) true s).cfg_paths

  whole_path : (i : ℕ) → length dir ≤ 495 → path i ≡ dir ++ b'/' ∷ partition_filename i
  unfolding set_cfg_dir
  whole_path i short =
      take-length 511 (dir ++ b'/' ∷ partition_filename i) (
        omega (arith, length-append dir (b'/' ∷ partition_filename i), length-partition_filename i))

  cut_path : (i : ℕ) → 503 ≤ length dir → path i ≡ take 511 (dir ++ b'/' ∷ config_text)
  unfolding set_cfg_dir partition_filename
  cut_path i long =
      let rest = partition_rest i in
      ap (take 511) (sym (append_assoc dir (b'/' ∷ config_text) rest))
      ∙ take-front 511 (dir ++ b'/' ∷ config_text) rest
          (omega (arith, length-append dir (b'/' ∷ config_text)))

  module _ (short : length dir ≤ 495) where
    pub path-inj : (i j : ℕ) → i < 3 → j < 3 → path i ≡ path j → i ≡ j
    path-inj i j p q e =
        partition_filename-inj i j p q
          (ap (drop 1) (append_cancel dir (sym (whole_path i short) ∙ (e ∙ whole_path j short))))

    -- The temporary file of a partition is not the file of any.
    pub path-ne-tmp : (i j : ℕ) → path i ≢ path j ++ tmp_text
    path-ne-tmp i j e = name_ne i j (
        ap (drop 1) (
          append_cancel dir (
            sym (whole_path i short)
            ∙ (e
                ∙ (ap (λ p. p ++ tmp_text) (whole_path j short)
                    ∙ append_assoc dir (b'/' ∷ partition_filename j) tmp_text)))))

  -- In a directory whose name has 503 characters or more all partitions share one file.
  pub paths_collide : (i j : ℕ) → 503 ≤ length dir → path i ≡ path j
  unfolding set_cfg_dir partition_filename
  paths_collide i j long = cut_path i long ∙ sym (cut_path j long)
