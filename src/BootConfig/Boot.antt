-- ===== src/BootConfig/Boot.antt =====
-- pkg/bootconfig/bootconfig.go: `Boot`.
pub mod Calls
pub mod Ends
pub mod Files
pub mod Measured
pub mod Backed
use systemboot.Base.{
  ℕ, [], ◌∷◌, Option, none, some, not, if◌then◌else◌, Bytes, is_empty,
  unexpected_return_from_reboot, multiboot_load_error, Error,
}
use systemboot.Platform.{
  Platform, Trace, open_file, close_file, kexec_file_load, multiboot_probe, multiboot_load,
  kexec_reboot,
}
use systemboot.Platform.Monad.{M, pure, raise, handle, ◌>>=◌, ◌>>◌, finally, call, call_number}
use systemboot.Crypto.Measure.{boot_config_pcr, try_measure_data, try_measure_files}
use systemboot.BootConfig.{BootConfig, file_names, bytestream}

-- The deferred clean-up; `Close` is called for each file that was opened.
abbrev pub close_files : ℕ → Option ℕ → Trace → Trace
close_files kernel none h = close_file kernel ∷ h
close_files kernel (some initramfs) h = close_file initramfs ∷ close_file kernel ∷ h

module _ (os : Platform) where
  -- The end of `Boot`: a reboot that returns is an error in any case.
  unfoldable pub reboot : M (Unit {0})
  reboot = handle (call os kexec_reboot) (λ _. raise unexpected_return_from_reboot) raise

  unfoldable pub open_initramfs : Bytes → M (Option ℕ)
  open_initramfs path =
      if not (is_empty path)
      then (call_number os (open_file path) >>= λ f. pure (some f))
      else pure none

  unfoldable pub boot_linux : BootConfig → M (Unit {0})
  unfolding open_initramfs reboot
  boot_linux bc = call_number os (open_file bc.kernel) >>= λ kernel.
      open_initramfs bc.initramfs >>= λ initramfs.
      finally (call os (kexec_file_load kernel initramfs bc.kernel_args) >> reboot)
        (close_files kernel initramfs)

  unfoldable pub boot_multiboot : BootConfig → M (Unit {0})
  unfolding reboot
  boot_multiboot bc = do
    call os (multiboot_probe bc.multiboot)
    handle (call os (multiboot_load bc.multiboot bc.multiboot_args bc.modules)) pure
        (λ e. raise (multiboot_load_error e))
    reboot

  -- `Boot` behind the measurements.
  unfoldable pub boot_rest : BootConfig → M (Unit {0})
  unfolding boot_linux boot_multiboot
  boot_rest bc =
      if not (is_empty bc.kernel)
      then boot_linux bc
      else if not (is_empty bc.multiboot)
      then boot_multiboot bc
      else reboot

  unfoldable pub boot : BootConfig → M (Unit {0})
  boot bc =
      try_measure_data os boot_config_pcr (bytestream bc)
      >> try_measure_files os (file_names bc)
      >> boot_rest bc
