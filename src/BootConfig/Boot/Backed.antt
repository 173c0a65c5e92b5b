-- ===== src/BootConfig/Boot/Backed.antt =====
-- What `Boot` has done before it loads a kernel.
use systemboot.Base.{
  ℕ, ◌≡◌, refl, [], ◌∷◌, Option, none, some, Bool, true, false, Bool-cases, inl, inr, Bytes,
  is_empty, Fault,
}
use systemboot.Platform.{
  Platform, Trace, Event, done, failed, tpm_open, tpm_measure, tpm_close, open_file,
  kexec_file_load, multiboot_load,
}
use systemboot.Platform.Monad.{pure, handle, finally, call, ◌>>=◌, ◌>>◌, Answer-cases}
use systemboot.Platform.Rules.{
  Keeps, Keeps-finally, Keeps-if, keeps_rules, Leads, Leads-of_Keeps, Leads-bind, Gives, Gives-pure,
  Gives-call_number, Gives-bind, Keeps-bind_Gives,
}
use systemboot.Crypto.Measure.{boot_config_pcr, ignore, try_measure_data, try_measure_files-Keeps}
use systemboot.BootConfig.{BootConfig, file_names, bytestream}
use systemboot.BootConfig.Boot.{
  close_files, reboot, open_initramfs, boot_linux, boot_multiboot, boot_rest, boot,
}
use systemboot.BootConfig.Boot.Measured.{measured, boot-measured}

-- The calls that load nothing.
abbrev pub is_quiet : Event → Bool
is_quiet (kexec_file_load kernel initramfs args) = false
is_quiet (multiboot_load path args modules) = false
is_quiet e = true

module _ (os : Platform) where
  -- The file was opened, with the handle `fd`.
  pub data Opened (path : Bytes) (fd : ℕ) : Trace → Type 0 where
    opened :
        {h : Trace} → os.number h (open_file path) ≡ done fd → Opened path fd (open_file path ∷ h)
    opened_before : {h : Trace} (e : Event) → Opened path fd h → Opened path fd (e ∷ h)

  -- The configuration was measured, or the TPM could not be opened.
  pub data Recorded (bc : BootConfig) : Trace → Type 0 where
    by_tpm : {h : Trace} → Recorded bc (tpm_measure boot_config_pcr (bytestream bc) ∷ h)
    no_tpm : {e : Fault} {h : Trace} → os.unit h tpm_open ≡ failed e → Recorded bc (tpm_open ∷ h)
    recorded_before : {h : Trace} (e : Event) → Recorded bc h → Recorded bc (e ∷ h)

  -- The handle of the initramfs of a configuration, if it has one.
  abbrev pub InitramfsOf : BootConfig → Option ℕ → Trace → Type 0
  InitramfsOf bc none h = is_empty bc.initramfs ≡ true
  InitramfsOf bc (some fd) h = Opened bc.initramfs fd h

  module _ {κ} (Allowed : BootConfig → Type κ) where
    -- Each kernel so far was loaded for an allowed configuration that had been measured, from the
    -- files that it names and with its arguments.
    abbrev pub Backed : Trace → Type κ
    Backed [] = Unit
    Backed (kexec_file_load kernel initramfs args ∷ h) =
        ((bc : BootConfig) × Allowed bc
          × (args ≡ bc.kernel_args)
          × Opened bc.kernel kernel h
          × InitramfsOf bc initramfs h
          × Recorded bc h)
        × Backed h
    Backed (multiboot_load path args modules ∷ h) =
        ((bc : BootConfig) × Allowed bc
          × (path ≡ bc.multiboot)
          × (args ≡ bc.multiboot_args)
          × (modules ≡ bc.modules)
          × Recorded bc h)
        × Backed h
    Backed (_ ∷ h) = Backed h

    pub quiet-Backed : (e : Event) → is_quiet e ≡ true → (h : Trace) → Backed h → Backed (e ∷ h)
    quiet-Backed (kexec_file_load kernel initramfs args) q h b = cc
    quiet-Backed (multiboot_load path args modules) q h b = cc
    quiet-Backed e q h b = b

    module _ (bc : BootConfig) (allowed : Allowed bc) where
      abbrev Ready : Trace → Type κ
      Ready h = Recorded bc h × Backed h

      -- The state of `boot_linux` with the kernel open, and with the initramfs too.
      abbrev WithKernel : ℕ → Trace → Type κ
      WithKernel fd h = Opened bc.kernel fd h × Ready h

      abbrev WithFiles : ℕ → Option ℕ → Trace → Type κ
      WithFiles fd initramfs h = InitramfsOf bc initramfs h × WithKernel fd h

      quiet-Ready : (e : Event) → is_quiet e ≡ true → (h : Trace) → Ready h → Ready (e ∷ h)
      quiet-Ready e q h (r, b) = (recorded_before e r, quiet-Backed e q h b)

      quiet-WithKernel :
          (fd : ℕ) (e : Event)
          → is_quiet e ≡ true
          → (h : Trace) → WithKernel fd h
          → WithKernel fd (e ∷ h)
      quiet-WithKernel fd e q h (o, r) = (opened_before e o, quiet-Ready e q h r)

      ruleset ready_rules = (keeps_rules, Keeps-finally, Keeps-if)

      reboot-Ready : Keeps Ready (reboot os)
      unfolding reboot
      reboot-Ready = search (ready_rules, quiet-Ready)

      loads-WithKernel :
          (fd : ℕ) (initramfs : Option ℕ) (h : Trace)
          → WithFiles fd initramfs h
          → WithKernel fd (kexec_file_load fd initramfs bc.kernel_args ∷ h)
      loads-WithKernel fd initramfs h (i, (o, (r, b))) =
          (opened_before _ o, (recorded_before _ r, ((bc, allowed, refl, o, i, r), b)))

      reboot-WithKernel : (fd : ℕ) → Keeps (WithKernel fd) (reboot os)
      unfolding reboot
      reboot-WithKernel fd = search (ready_rules, quiet-WithKernel)

      close_files-WithKernel :
          (fd kernel : ℕ) (initramfs : Option ℕ) (h : Trace)
          → WithKernel fd h
          → WithKernel fd (close_files kernel initramfs h)
      close_files-WithKernel fd kernel none h r = quiet-WithKernel fd _ refl _ r
      close_files-WithKernel fd kernel (some f) h r =
          quiet-WithKernel fd _ refl _ (quiet-WithKernel fd _ refl _ r)

      -- With the files open.
      load-Leads :
          (fd : ℕ) (initramfs : Option ℕ)
          → Leads (WithFiles fd initramfs) (WithKernel fd) (
              finally
                (call os (kexec_file_load fd initramfs bc.kernel_args) >> reboot os)
                (close_files fd initramfs))
      unfolding finally call
      load-Leads fd initramfs =
          let loads =
            Leads-bind {Q = WithKernel fd} {R = WithKernel fd} {P = WithFiles fd initramfs}
              (call os (kexec_file_load fd initramfs bc.kernel_args)) (λ _. reboot os)
              (record { at = loads-WithKernel fd initramfs }) (λ h k. k)
              (λ _. Leads-of_Keeps _ (reboot-WithKernel fd) (λ h k. k)) in
          record { at = λ h k. close_files-WithKernel fd fd initramfs _ (loads.at h k) }

      open_initramfs-Gives :
          (fd : ℕ) → Gives (WithKernel fd) (WithFiles fd) (open_initramfs os bc.initramfs)
      unfolding open_initramfs pure
      open_initramfs-Gives fd = elim (Bool-cases (is_empty bc.initramfs)) [
        | inl e ↦ rw e (Gives-pure _ (WithFiles fd) none (λ h k. (e, k)))
        | inr e ↦ rw e (
            Gives-bind (WithKernel fd) (λ i. WithFiles fd (some i)) (WithFiles fd) _ _
              (Gives-call_number _ _ os _ (λ i h a k. (opened a, quiet-WithKernel fd _ refl h k))
                (quiet-WithKernel fd _ refl))
              (λ i h k. k))
      ]

      boot_linux-Ready : Keeps Ready (boot_linux os bc)
      unfolding boot_linux
      boot_linux-Ready =
          Keeps-bind_Gives Ready WithKernel _ _
            (Gives-call_number Ready WithKernel os _
              (λ fd h a r. (opened a, quiet-Ready _ refl h r)) (quiet-Ready _ refl))
            (λ fd.
              Leads-of_Keeps _
                (Keeps-bind_Gives (WithKernel fd) (WithFiles fd) _ _ (open_initramfs-Gives fd)
                  (load-Leads fd))
                (λ h k. k.1))

      multiboot-Ready :
          (h : Trace)
          → Ready h
          → Ready (multiboot_load bc.multiboot bc.multiboot_args bc.modules ∷ h)
      multiboot-Ready h (r, b) = (recorded_before _ r, ((bc, allowed, refl, refl, refl, r), b))

      boot_multiboot-Ready : Keeps Ready (boot_multiboot os bc)
      unfolding boot_multiboot
      boot_multiboot-Ready =
          search (ready_rules, quiet-Ready, reboot-Ready, multiboot-Ready) depth 10

      boot_rest-Ready : Keeps Ready (boot_rest os bc)
      unfolding boot_rest
      boot_rest-Ready = search (ready_rules, reboot-Ready, boot_linux-Ready, boot_multiboot-Ready)

      closing-Ready : Keeps Ready (ignore os (call os tpm_close))
      closing-Ready = search (ready_rules, quiet-Ready)

      measure_data-Ready :
          (h : Trace) → Backed h → Ready (try_measure_data os boot_config_pcr (bytestream bc) h).1
      unfolding try_measure_data handle ◌>>=◌ call pure
      measure_data-Ready h b = elim (Answer-cases (os.unit h tpm_open)) [
        | inr (_, q) ↦ rw q (no_tpm q, b)
        | inl (_, q) ↦
            rw q
              (elim (Answer-cases
                (os.unit (tpm_open ∷ h) (tpm_measure boot_config_pcr (bytestream bc)))) [
                  | inl (_, a) ↦ rw a (closing-Ready.at _ (by_tpm, b))
                  | inr (_, a) ↦ rw a (closing-Ready.at _ (by_tpm, b))
                ])
      ]

      measured-Ready : (h : Trace) → Backed h → Ready (measured os bc h)
      unfolding measured
      measured-Ready h b =
          (try_measure_files-Keeps os Ready (quiet-Ready _ refl) (λ _ _. quiet-Ready _ refl)
              (quiet-Ready _ refl) (λ _. quiet-Ready _ refl) (file_names bc)).at
            _ (measure_data-Ready h b)

      -- `Boot` of an allowed configuration loads a kernel only behind the measurement of this
      -- configuration, or behind the failure to open the TPM for it, and only from the files that the
      -- configuration names, with its arguments.
      pub boot-Backed : Keeps Backed (boot os bc)
      boot-Backed = record {
        at = λ h b. rw (boot-measured os bc h) ((boot_rest-Ready.at _ (measured-Ready h b)).1);
      }
