-- ===== src/BootConfig/Boot/Measured.antt =====
-- What `Boot` measures, and when.
use systemboot.Base.{ℕ, inl, inr, ◌≡◌, ◌∙◌, List, ◌∷◌, Bytes}
use systemboot.Platform.{Platform, Trace, tpm_open, tpm_measure, tpm_close, done}
use systemboot.Platform.Monad.{Answer-cases, call, handle, ◌>>=◌, pure}
use systemboot.Platform.Rules.{bind-Returns, Keeps, Extends, later, same, extends_rules}
use systemboot.Crypto.Measure.{
  boot_config_pcr, ignore, try_measure_data, try_measure_files, try_measure_data-Returns,
  try_measure_files-Returns, try_measure_files-Keeps,
}
use systemboot.BootConfig.{BootConfig, file_names, bytestream}
use systemboot.BootConfig.Boot.Calls.{boot_rest-Keeps}
use systemboot.BootConfig.Boot.{boot_rest, boot}

module _ (os : Platform) where
  -- The calls up to the end of the measurements.
  unfoldable pub measured : BootConfig → Trace → Trace
  measured bc h =
      (try_measure_files os (file_names bc)
        (try_measure_data os boot_config_pcr (bytestream bc) h).1).1

  pub boot-measured : (bc : BootConfig) (h : Trace) → boot os bc h ≡ boot_rest os bc (measured bc h)
  unfolding boot measured
  boot-measured bc h =
      bind-Returns _ _ h (try_measure_data-Returns os boot_config_pcr (bytestream bc))
      ∙ bind-Returns _ _ _ (try_measure_files-Returns os (file_names bc))

  measure_files-From :
      (start : Trace) (files : List Bytes) → Keeps (Extends start) (try_measure_files os files)
  measure_files-From start files =
      try_measure_files-Keeps os (Extends start) (λ _. later _) (λ _ _ _. later _) (λ _. later _)
        (λ _ _. later _) files

  close-Keeps : (start : Trace) → Keeps (Extends start) (ignore os (call os tpm_close))
  close-Keeps start = search extends_rules

  measure_data-Extends :
      (pcr : ℕ) (content : Bytes) (h : Trace)
      → os.unit h tpm_open ≡ done tt
      → Extends (tpm_measure pcr content ∷ tpm_open ∷ h) (try_measure_data os pcr content h).1
  unfolding try_measure_data handle ◌>>=◌ call pure
  measure_data-Extends pcr content h opens =
      rw opens (elim (Answer-cases (os.unit (tpm_open ∷ h) (tpm_measure pcr content))) [
        | inl (_, e) ↦ rw e ((close-Keeps _).at _ same)
        | inr (_, e) ↦ rw e ((close-Keeps _).at _ same)
      ])

  -- Where the TPM opens, the first two calls of `Boot` open it and measure the configuration: what
  -- is loaded or rebooted comes later, whatever happens.
  pub boot-Extends :
      (bc : BootConfig) (h : Trace)
      → os.unit h tpm_open ≡ done tt
      → Extends (tpm_measure boot_config_pcr (bytestream bc) ∷ tpm_open ∷ h) (boot os bc h).1
  boot-Extends bc h opens =
      let start : Trace = tpm_measure boot_config_pcr (bytestream bc) ∷ tpm_open ∷ h in
      rw (boot-measured bc h) (
        (boot_rest-Keeps os (Extends start) (λ e _ h. later e) bc).at _ (
          unfold measured in
          (measure_files-From start (file_names bc)).at _
            (measure_data-Extends boot_config_pcr (bytestream bc) h opens)))
