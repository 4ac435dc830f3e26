-- ===== src/Platform/DfuState/Distinct.antt =====
-- The paths of an update are four files: src/platform/linux/platform_linux.cpp.
use bm_sbc.Prelude.{◌≡◌, ◌≢◌, sym, true, false, same_text}
use bm_sbc.Platform.Files.{same_text-ne, same_text_refl}
use bm_sbc.Platform.DfuState.{Dfu}

pub record Distinct (s : Dfu) : Type 0 where
  pub install-staging : s.install_path ≢ s.staging_path
  pub install-backup : s.install_path ≢ s.backup_path
  pub install-marker : s.install_path ≢ s.marker_path
  pub staging-backup : s.staging_path ≢ s.backup_path
  pub staging-marker : s.staging_path ≢ s.marker_path
  pub backup-marker : s.backup_path ≢ s.marker_path

-- The same, by the test that decides where a write goes.
pub record Apart (s : Dfu) : Type 0 where
  pub install-install : same_text s.install_path s.install_path ≡ true
  pub staging-staging : same_text s.staging_path s.staging_path ≡ true
  pub backup-backup : same_text s.backup_path s.backup_path ≡ true
  pub marker-marker : same_text s.marker_path s.marker_path ≡ true
  pub install-staging : same_text s.install_path s.staging_path ≡ false
  pub staging-install : same_text s.staging_path s.install_path ≡ false
  pub install-backup : same_text s.install_path s.backup_path ≡ false
  pub backup-install : same_text s.backup_path s.install_path ≡ false
  pub install-marker : same_text s.install_path s.marker_path ≡ false
  pub marker-install : same_text s.marker_path s.install_path ≡ false
  pub staging-backup : same_text s.staging_path s.backup_path ≡ false
  pub backup-staging : same_text s.backup_path s.staging_path ≡ false
  pub staging-marker : same_text s.staging_path s.marker_path ≡ false
  pub marker-staging : same_text s.marker_path s.staging_path ≡ false
  pub backup-marker : same_text s.backup_path s.marker_path ≡ false
  pub marker-backup : same_text s.marker_path s.backup_path ≡ false

pub Distinct-Apart : {s : Dfu} → Distinct s → Apart s
Distinct-Apart {s} d = record {
  install-install = same_text_refl s.install_path;
  staging-staging = same_text_refl s.staging_path;
  backup-backup = same_text_refl s.backup_path;
  marker-marker = same_text_refl s.marker_path;
  install-staging = same_text-ne _ _ d.install-staging;
  staging-install = same_text-ne _ _ (λ e. d.install-staging (sym e));
  install-backup = same_text-ne _ _ d.install-backup;
  backup-install = same_text-ne _ _ (λ e. d.install-backup (sym e));
  install-marker = same_text-ne _ _ d.install-marker;
  marker-install = same_text-ne _ _ (λ e. d.install-marker (sym e));
  staging-backup = same_text-ne _ _ d.staging-backup;
  backup-staging = same_text-ne _ _ (λ e. d.staging-backup (sym e));
  staging-marker = same_text-ne _ _ d.staging-marker;
  marker-staging = same_text-ne _ _ (λ e. d.staging-marker (sym e));
  backup-marker = same_text-ne _ _ d.backup-marker;
  marker-backup = same_text-ne _ _ (λ e. d.backup-marker (sym e));
}
