-- ===== src/Crypto/Measure.antt =====
-- pkg/crypto/measure.go: measurements into the TPM, if there is one.
use systemboot.Base.{ℕ, List, [], ◌∷◌, Bytes}
use systemboot.Platform.{Platform, Trace, tpm_open, tpm_measure, tpm_close, read_file}
use systemboot.Platform.Monad.{M, pure, handle, ◌>>◌, call, call_text}
use systemboot.Platform.Rules.{
  Returns, Returns-pure, Returns-bind, Returns-handle, NoPanic-call_text, returns_rules, Keeps,
  Keeps-pure, Keeps-bind, Keeps-handle, Keeps-call_text, keeps_rules,
}

abbrev pub blob_pcr : ℕ
blob_pcr = 7

abbrev pub boot_config_pcr : ℕ
boot_config_pcr = 8

abbrev pub nvram_vars_pcr : ℕ
nvram_vars_pcr = 9

module _ (os : Platform) where
  -- The result of `Measure` and `Close` is not looked at.
  abbrev pub ignore : M (Unit {0}) → M (Unit {0})
  ignore m = handle m pure (λ _. pure tt)

  unfoldable pub try_measure_data : ℕ → Bytes → M (Unit {0})
  try_measure_data pcr content =
      handle (call os tpm_open)
        (λ _. ignore (call os (tpm_measure pcr content)) >> ignore (call os tpm_close))
        (λ _. pure tt)

  unfoldable pub measure_files_loop : List Bytes → M (Unit {0})
  measure_files_loop [] = pure tt
  measure_files_loop (file ∷ files) =
      let rest = measure_files_loop files in
      handle (call_text os (read_file file))
        (λ content. ignore (call os (tpm_measure blob_pcr content)) >> rest) (λ _. rest)

  unfoldable pub try_measure_files : List Bytes → M (Unit {0})
  unfolding measure_files_loop
  try_measure_files files =
      handle (call os tpm_open) (λ _. measure_files_loop files >> ignore (call os tpm_close))
        (λ _. pure tt)

  -- A measurement never stops its caller.
  pub try_measure_data-Returns :
      (pcr : ℕ) (content : Bytes) → Returns (try_measure_data pcr content)
  unfolding try_measure_data
  try_measure_data-Returns pcr content = search returns_rules

  measure_files_loop-Returns : (files : List Bytes) → Returns (measure_files_loop files)
  unfolding measure_files_loop
  measure_files_loop-Returns [] = Returns-pure tt
  measure_files_loop-Returns (file ∷ files) =
      Returns-handle _ _ _ (NoPanic-call_text os _)
        (λ _. Returns-bind _ _ (search returns_rules) (λ _. measure_files_loop-Returns files))
        (λ _. measure_files_loop-Returns files)

  pub try_measure_files-Returns : (files : List Bytes) → Returns (try_measure_files files)
  unfolding try_measure_files
  try_measure_files-Returns files = search (returns_rules, measure_files_loop-Returns)

  -- A property that the calls of a measurement keep is kept by the measurement.
  module _ {κ} (P : Trace → Type κ) (opens : (h : Trace) → P h → P (tpm_open ∷ h))
      (measures : (pcr : ℕ) (content : Bytes) (h : Trace) → P h → P (tpm_measure pcr content ∷ h))
      (closes : (h : Trace) → P h → P (tpm_close ∷ h))
      (reads : (file : Bytes) (h : Trace) → P h → P (read_file file ∷ h)) where
    pub try_measure_data-Keeps :
        (pcr : ℕ) (content : Bytes) → Keeps P (try_measure_data pcr content)
    unfolding try_measure_data
    try_measure_data-Keeps pcr content = search (keeps_rules, opens, measures, closes)

    measure_files_loop-Keeps : (files : List Bytes) → Keeps P (measure_files_loop files)
    unfolding measure_files_loop
    measure_files_loop-Keeps [] = Keeps-pure P tt
    measure_files_loop-Keeps (file ∷ files) =
        Keeps-handle P _ _ _ (Keeps-call_text P os _ (reads file))
          (λ content.
            Keeps-bind P _ _ (search (keeps_rules, measures)) (λ _. measure_files_loop-Keeps files))
          (λ _. measure_files_loop-Keeps files)

    pub try_measure_files-Keeps : (files : List Bytes) → Keeps P (try_measure_files files)
    unfolding try_measure_files
    try_measure_files-Keeps files = search (keeps_rules, opens, closes, measure_files_loop-Keeps)
