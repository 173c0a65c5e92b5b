-- ===== src/BootConfig/Boot/Ends.antt =====
-- How `Boot` ends.
use systemboot.Base.{Bytes, is_empty, Bool-cases, inl, inr}
use systemboot.Platform.{Platform, Trace}
use systemboot.Platform.Rules.{Fails, IsErr, fails_rules, NoPanic, NoPanic-of_Returns, Fails-bind}
use systemboot.Crypto.Measure.{try_measure_data-Returns, try_measure_files-Returns}
use systemboot.BootConfig.{BootConfig}
use systemboot.BootConfig.Boot.{reboot, open_initramfs, boot_linux, boot_multiboot, boot_rest, boot}

module _ (os : Platform) where
  reboot-Fails : Fails (reboot os)
  unfolding reboot
  reboot-Fails = search fails_rules

  open_initramfs-NoPanic : (path : Bytes) → NoPanic (open_initramfs os path)
  unfolding open_initramfs
  open_initramfs-NoPanic path = elim (Bool-cases (is_empty path)) [
    | inl e ↦ rw e (search fails_rules)
    | inr e ↦ rw e (search fails_rules)
  ]

  boot_linux-Fails : (bc : BootConfig) → Fails (boot_linux os bc)
  unfolding boot_linux
  boot_linux-Fails bc = Fails-bind _ _ (search fails_rules) (λ kernel.
      Fails-bind _ _ (open_initramfs-NoPanic bc.initramfs)
        (λ initramfs. search (fails_rules, reboot-Fails)))

  boot_multiboot-Fails : (bc : BootConfig) → Fails (boot_multiboot os bc)
  unfolding boot_multiboot
  boot_multiboot-Fails bc = search (fails_rules, reboot-Fails) depth 8

  boot_rest-Fails : (bc : BootConfig) → Fails (boot_rest os bc)
  unfolding boot_rest
  boot_rest-Fails bc = search (fails_rules, reboot-Fails, boot_linux-Fails, boot_multiboot-Fails)

  boot-Fails : (bc : BootConfig) → Fails (boot os bc)
  unfolding boot
  boot-Fails bc =
      search
        (
          fails_rules, boot_rest-Fails, NoPanic-of_Returns, try_measure_data-Returns,
          try_measure_files-Returns,
        )
        depth 8

  -- `Boot` returns an error in every case: it never returns nil, and it never panics.
  pub boot-IsErr : (bc : BootConfig) (h : Trace) → IsErr (boot os bc h).0
  boot-IsErr bc h = (boot-Fails bc).at h
