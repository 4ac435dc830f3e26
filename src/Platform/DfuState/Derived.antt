-- ===== src/Platform/DfuState/Derived.antt =====
-- `derive_dfu_paths` of src/platform/linux/platform_linux.cpp gives four different paths.
use mathlib.Core.List.{reverse, reverse-cons}
use bm_sbc.Prelude.{
  ℕ, ◌+◌, ◌≤◌, ◌<◌, ◌≡◌, ◌≢◌, refl, sym, ap, ◌∙◌, some, List, [], ◌∷◌, ◌++◌, length, length-append,
  take-length, is_empty-false, arith,
}
use bm_sbc.Platform.Files.{FilePath}
use bm_sbc.Platform.DfuState.{
  Dfu, drop_slashes, drop_name, dirname, derive_dfu_paths, staging_text, backup_text, marker_text,
}
use bm_sbc.Platform.DfuState.Distinct.{Distinct}

last_or : List ℕ → ℕ → ℕ
last_or [] d = d
last_or (c ∷ cs) d = last_or cs c

last_or-append : (xs ys : List ℕ) (d e : ℕ) → 0 < length ys → last_or (xs ++ ys) d ≡ last_or ys e
unfolding last_or
last_or-append [] [] d e h = elim h [ ]
last_or-append [] (y ∷ ys) d e h = refl
last_or-append (x ∷ xs) ys d e h = last_or-append xs ys x e h

ends_differ :
    (xs ys front back : List ℕ)
    → 0 < length front
    → 0 < length back
    → last_or front 0 ≢ last_or back 0
    → xs ++ front ≢ ys ++ back
ends_differ xs ys front back p q ne e =
    ne (
      sym (last_or-append xs front 0 0 p)
      ∙ (ap (λ t. last_or t 0) e ∙ last_or-append ys back 0 0 q))

length-drop_slashes : (cs : List ℕ) → length (drop_slashes cs) ≤ length cs
unfolding drop_slashes
length-drop_slashes [] = omega arith
length-drop_slashes (c ∷ cs) = ground (arith, length-drop_slashes cs)

length-drop_name : (cs : List ℕ) → length (drop_name cs) ≤ length cs
unfolding drop_name
length-drop_name [] = omega arith
length-drop_name (c ∷ cs) = ground (arith, length-drop_name cs)

length-reverse : (xs : List ℕ) → length (reverse xs) ≡ length xs
length-reverse [] = refl
length-reverse (x ∷ xs) =
    ap length (reverse-cons x xs)
    ∙ omega (arith, length-append (reverse xs) (x ∷ []), length-reverse xs)

length-dirname : (p : FilePath) → length (dirname p) ≤ length p + 1
unfolding dirname
length-dirname p = ground (
  arith,
  length-reverse p,
  length-drop_slashes (reverse p),
  length-drop_name (drop_slashes (reverse p)),
  length-drop_slashes (drop_name (drop_slashes (reverse p))),
  length-reverse (drop_slashes (drop_name (drop_slashes (reverse p)))),
)

longer_differs : (xs ys : List ℕ) → 0 < length ys → xs ≢ xs ++ ys
longer_differs xs ys h e = absurd (omega (arith, ap length e, length-append xs ys))

module _ (link : FilePath) (s : Dfu) (given : 0 < length link) (short : length link ≤ 4078) where
  abbrev t : Dfu
  t = derive_dfu_paths (some link) s

  derived : t ≡ record s {
    install_path = link;
    staging_path = link ++ staging_text;
    backup_path = link ++ backup_text;
    marker_path = dirname link ++ marker_text;
  }
  unfolding derive_dfu_paths
  derived = ground (
    arith,
    is_empty-false link,
    take-length 4095 link,
    take-length 4095 (link ++ staging_text),
    take-length 4095 (link ++ backup_text),
    take-length 4095 (dirname link ++ marker_text),
    length-append link staging_text,
    length-append link backup_text,
    length-append (dirname link) marker_text,
    length-dirname link,
  )

  -- The path that `readlink` gives being one of 1 to 4078 characters that does not end in
  -- "/dfu_pending.bin" of its own directory, the four paths are different ones.
  pub derive_dfu_paths-Distinct : link ≢ dirname link ++ marker_text → Distinct t
  unfolding last_or
  derive_dfu_paths-Distinct named = rw derived (record {
    install-staging = longer_differs link staging_text (omega arith);
    install-backup = longer_differs link backup_text (omega arith);
    install-marker = named;
    staging-backup =
        ends_differ link link staging_text backup_text (omega arith) (omega arith)
          (λ e. absurd (omega arith));
    staging-marker =
        ends_differ link (dirname link) staging_text marker_text (omega arith) (omega arith)
          (λ e. absurd (omega arith));
    backup-marker =
        ends_differ link (dirname link) backup_text marker_text (omega arith) (omega arith)
          (λ e. absurd (omega arith));
  })
