-- ===== src/LocalBoot/Command/Dry.antt =====
-- The dry run of the command.
use systemboot.Base.{
  ℕ, suc, ◌≡◌, refl, sym, List, [], ◌∷◌, All, Bool, true, false, if◌then◌else◌, Bytes,
}
use systemboot.Platform.{Platform, Trace, Event, kexec_file_load, multiboot_load, kexec_reboot}
use systemboot.Platform.Rules.{Only-of_Yields, Only-weaken}
use systemboot.BootConfig.{BootConfig}
use systemboot.LocalBoot.Scan.Valid.{AllValid, scan_grub_configs-Yields}
use systemboot.LocalBoot.Command.Mounting.{is_mounting}
use systemboot.LocalBoot.Command.Keeping.{localboot-Keeps}
use systemboot.LocalBoot.Command.{Flags, localboot}
use systemboot.LocalBoot.Command.Reading.{is_read}

-- The calls that load a kernel or start it.
abbrev pub is_load : Event → Bool
is_load (kexec_file_load kernel initramfs args) = true
is_load (multiboot_load path args modules) = true
is_load kexec_reboot = true
is_load e = false

abbrev pub loads : Trace → ℕ
loads [] = 0
loads (e ∷ h) = if is_load e then suc (loads h) else loads h

read_no_load : (e : Event) → is_read e ≡ true → is_load e ≡ false
read_no_load (kexec_file_load kernel initramfs args) r = sym r
read_no_load (multiboot_load path args modules) r = sym r
read_no_load kexec_reboot r = sym r
read_no_load e r = refl

mounting_no_load : (e : Event) → is_mounting e ≡ true → is_load e ≡ false
mounting_no_load (kexec_file_load kernel initramfs args) r = sym r
mounting_no_load (multiboot_load path args modules) r = sym r
mounting_no_load kexec_reboot r = sym r
mounting_no_load e r = refl

forget : (cs : List BootConfig) → AllValid cs → All (λ _. Unit {0}) cs
forget [] v = tt
forget (c ∷ cs) v = (tt, forget cs v.1)

-- With `-dryrun` the command loads no kernel and does not reboot, in each of its modes and whatever
-- the machine answers.
pub localboot-loads :
    (os : Platform) (normalize : Bytes → Bytes) (flags : Flags) (h : Trace)
    → flags.dryrun ≡ true
    → loads (localboot os normalize flags h).1 ≡ loads h
localboot-loads os normalize flags h d =
    (localboot-Keeps os (λ t. loads t ≡ loads h) (λ e r t p. rw (read_no_load e r) p)
        (λ e r t p. rw (mounting_no_load e r) p) normalize flags (λ _. Unit {0}) (λ e. cc)
        (λ devices base.
          Only-weaken AllValid _ _ forget
            (Only-of_Yields AllValid _ (scan_grub_configs-Yields os normalize devices base)))
        (λ _. tt)).at
      h refl
