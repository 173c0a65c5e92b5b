-- ===== src/BootConfig/Boot/Calls.antt =====
-- What `Boot` keeps of the calls made so far.
use systemboot.Base.{ℕ, ◌≡◌, refl, ◌∷◌, Option, none, some, Bool, true, false, Bytes}
use systemboot.Platform.{
  Platform, Trace, Event, tpm_open, tpm_measure, tpm_close, open_file, close_file, read_file,
  kexec_file_load, multiboot_probe, multiboot_load, kexec_reboot,
}
use systemboot.Platform.Rules.{Keeps, Keeps-bind, Keeps-finally, Keeps-if, keeps_rules}
use systemboot.Crypto.Measure.{try_measure_data-Keeps, try_measure_files-Keeps}
use systemboot.BootConfig.{BootConfig, file_names, bytestream}
use systemboot.BootConfig.Boot.{
  close_files, reboot, open_initramfs, boot_linux, boot_multiboot, boot_rest, boot,
}

-- The calls that `Boot` makes.
abbrev pub is_boot_call : Event → Bool
is_boot_call tpm_open = true
is_boot_call (tpm_measure pcr content) = true
is_boot_call tpm_close = true
is_boot_call (open_file path) = true
is_boot_call (close_file fd) = true
is_boot_call (read_file path) = true
is_boot_call (kexec_file_load kernel initramfs args) = true
is_boot_call (multiboot_probe path) = true
is_boot_call (multiboot_load path args modules) = true
is_boot_call kexec_reboot = true
is_boot_call e = false

module _ {κ} (os : Platform) (P : Trace → Type κ)
    (calls : (e : Event) → is_boot_call e ≡ true → (h : Trace) → P h → P (e ∷ h)) where
  ruleset booting = (keeps_rules, Keeps-finally, Keeps-if)

  reboot-Keeps : Keeps P (reboot os)
  unfolding reboot
  reboot-Keeps = search (booting, calls)

  close_files-P : (k : ℕ) (i : Option ℕ) (h : Trace) → P h → P (close_files k i h)
  close_files-P k none h p = calls _ refl _ p
  close_files-P k (some f) h p = calls _ refl _ (calls _ refl _ p)

  open_initramfs-Keeps : (path : Bytes) → Keeps P (open_initramfs os path)
  unfolding open_initramfs
  open_initramfs-Keeps path = search (booting, calls)

  boot_linux-Keeps : (bc : BootConfig) → Keeps P (boot_linux os bc)
  unfolding boot_linux
  boot_linux-Keeps bc =
      search (booting, calls, reboot-Keeps, open_initramfs-Keeps, close_files-P) depth 8

  boot_multiboot-Keeps : (bc : BootConfig) → Keeps P (boot_multiboot os bc)
  unfolding boot_multiboot
  boot_multiboot-Keeps bc = search (booting, calls, reboot-Keeps) depth 8

  pub boot_rest-Keeps : (bc : BootConfig) → Keeps P (boot_rest os bc)
  unfolding boot_rest
  boot_rest-Keeps bc = search (booting, reboot-Keeps, boot_linux-Keeps, boot_multiboot-Keeps)

  pub boot-Keeps : (bc : BootConfig) → Keeps P (boot os bc)
  unfolding boot
  boot-Keeps bc =
      Keeps-bind P _ _
        (try_measure_data-Keeps os P (calls _ refl) (λ _ _. calls _ refl) (calls _ refl)
          (λ _. calls _ refl) _ (bytestream bc))
        (λ _.
          Keeps-bind P _ _
            (try_measure_files-Keeps os P (calls _ refl) (λ _ _. calls _ refl) (calls _ refl)
              (λ _. calls _ refl) (file_names bc))
            (λ _. boot_rest-Keeps bc))
