-- ===== src/LocalBoot/Command/Started.antt =====
-- Which kernels the command loads.
use systemboot.Base.{◌≡◌, refl, List, [], ◌∷◌, true, All, ◌⊎◌, inl, inr, Bytes}
use systemboot.Platform.{Platform, Trace, Event, kexec_file_load, multiboot_load}
use systemboot.Platform.Rules.{Only-of_Yields, Only-weaken}
use systemboot.BootConfig.{BootConfig, is_valid}
use systemboot.BootConfig.Boot.Backed.{Backed, is_quiet, quiet-Backed, boot-Backed}
use systemboot.Storage.Filesystem.{Mountpoint}
use systemboot.LocalBoot.Scan.Valid.{AllValid, scan_grub_configs-Yields}
use systemboot.LocalBoot.Command.{Flags, path_config, localboot}
use systemboot.LocalBoot.Command.Reading.{is_read}
use systemboot.LocalBoot.Command.Mounting.{is_mounting}
use systemboot.LocalBoot.Command.Keeping.{localboot-Keeps}

read_is_quiet : (e : Event) → is_read e ≡ true → is_quiet e ≡ true
read_is_quiet (kexec_file_load kernel initramfs args) r = r
read_is_quiet (multiboot_load path args modules) r = r
read_is_quiet e r = refl

mounting_is_quiet : (e : Event) → is_mounting e ≡ true → is_quiet e ≡ true
mounting_is_quiet (kexec_file_load kernel initramfs args) r = r
mounting_is_quiet (multiboot_load path args modules) r = r
mounting_is_quiet e r = refl

module _ (os : Platform) (normalize : Bytes → Bytes) (flags : Flags) where
  -- A valid configuration, or the one that the flags describe, on some mounted device.
  abbrev pub IsStartable : BootConfig → Type 0
  IsStartable bc =
      (is_valid bc ≡ true) ⊎ ((m : Mountpoint) × (bc ≡ path_config os normalize flags m))

  AllValid-IsStartable : (cs : List BootConfig) → AllValid cs → All IsStartable cs
  AllValid-IsStartable [] v = tt
  AllValid-IsStartable (c ∷ cs) (v, vs) = (inl v, AllValid-IsStartable cs vs)

  -- In each of its modes, and whatever the machine answers, the command loads a kernel only for a
  -- valid configuration, or for the one of the flags, from the files that it names, with its
  -- arguments, and only behind the measurement of this configuration or behind the failure to open
  -- the TPM for it.
  pub localboot-Backed :
      (h : Trace)
      → Backed os IsStartable h
      → Backed os IsStartable (localboot os normalize flags h).1
  localboot-Backed h b =
      (localboot-Keeps os (Backed os IsStartable)
          (λ e r. quiet-Backed os IsStartable e (read_is_quiet e r))
          (λ e r. quiet-Backed os IsStartable e (mounting_is_quiet e r)) normalize flags IsStartable
          (λ _ bc k. boot-Backed os IsStartable bc k)
          (λ devices base.
            Only-weaken AllValid _ _ AllValid-IsStartable
              (Only-of_Yields AllValid _ (scan_grub_configs-Yields os normalize devices base)))
          (λ m. inr (m, refl))).at
        h b
