-- ===== src/BootConfig/Boot/Files.antt =====
-- The files that `Boot` opens.
use systemboot.Base.{
  ℕ, if◌then◌else◌, ◌==◌, Fault, ◌+◌, ◌≡◌, refl, false, [], ◌∷◌, is_empty, Bool-cases, ◌⊎◌, inl,
  inr, arith,
}
use systemboot.Platform.{Platform, Trace, open_file, close_file, done, failed, Answer}
use systemboot.Platform.Monad.{◌>>=◌, handle, raise, call, call_number, finally, pure, Answer-cases}
use systemboot.Crypto.Measure.{
  boot_config_pcr, try_measure_data, try_measure_files, try_measure_data-Keeps,
  try_measure_files-Keeps,
}
use systemboot.BootConfig.{BootConfig, file_names, bytestream}
use systemboot.BootConfig.Boot.{reboot, open_initramfs, boot_linux, boot_multiboot, boot_rest, boot}
use systemboot.BootConfig.Boot.Measured.{measured, boot-measured}

-- One where the two handles are the same.
abbrev same : ℕ → ℕ → ℕ
same a b = if a == b then 1 else 0

abbrev opens : ℕ → Answer ℕ → ℕ
opens fd (done f) = same f fd
opens fd (failed e) = 0

-- How often the calls have been given the handle `fd` for a file, and how often they closed it.
abbrev pub opened : Platform → ℕ → Trace → ℕ
opened os fd [] = 0
opened os fd (open_file p ∷ h) = opens fd (os.number h (open_file p)) + opened os fd h
opened os fd (_ ∷ h) = opened os fd h

abbrev pub closed : ℕ → Trace → ℕ
closed fd [] = 0
closed fd (close_file f ∷ h) = same f fd + closed fd h
closed fd (_ ∷ h) = closed fd h

-- The handle `fd` is open `n` times more at the end than at the start.
abbrev pub Leaks : Platform → ℕ → ℕ → Trace → Trace → Type 0
Leaks os fd n start end =
    opened os fd end + closed fd start ≡ closed fd end + opened os fd start + n

module _ (os : Platform) where
  -- No handle is open at the end that was not open at the start.
  abbrev Balanced : Trace → Trace → Type 0
  Balanced start end = (fd : ℕ) → Leaks os fd 0 start end

  reboot-Leaks : (h : Trace) → Balanced h (reboot os h).1
  unfolding reboot handle call raise
  reboot-Leaks h fd = ground arith

  boot_multiboot-Leaks : (bc : BootConfig) (h : Trace) → Balanced h (boot_multiboot os bc h).1
  unfolding boot_multiboot reboot ◌>>=◌ handle call raise pure
  boot_multiboot-Leaks bc h fd = ground arith

  -- The last two calls were to open the kernel, which gave the handle `k`, and to open the
  -- initramfs, which failed.
  abbrev pub FailedOpen : BootConfig → ℕ → Trace → Type 0
  FailedOpen bc k (i ∷ e ∷ h) =
      (e ≡ open_file bc.kernel)
      × (os.number h e ≡ done k)
      × (i ≡ open_file bc.initramfs)
      × ((f : Fault) × (os.number (e ∷ h) i ≡ failed f))
  FailedOpen bc k _ = ⊥

  -- The kernel's handle, and no other, is open once more, or no handle is.
  abbrev pub OutcomeOfFiles : BootConfig → Trace → Trace → Type 0
  OutcomeOfFiles bc start end =
      Balanced start end
      ⊎ ((k : ℕ) × (is_empty bc.initramfs ≡ false)
          × FailedOpen bc k end
          × ((fd : ℕ) → Leaks os fd (same k fd) start end))

  boot_linux-Leaks : (bc : BootConfig) (h : Trace) → OutcomeOfFiles bc h (boot_linux os bc h).1
  unfolding boot_linux open_initramfs reboot ◌>>=◌ handle call raise pure call_number finally
  boot_linux-Leaks bc h = elim (Bool-cases (is_empty bc.initramfs)) [
    | inl e ↦ rw e (inl (λ fd. ground arith))
    | inr e ↦ elim (Answer-cases (os.number h (open_file bc.kernel))) [
      | inr (f, k) ↦ rw (e, k) (inl (λ fd. ground arith))
      | inl (f, k) ↦
          elim (Answer-cases (os.number (open_file bc.kernel ∷ h) (open_file bc.initramfs))) [
            | inl (i, q) ↦ rw (e, k, q) (inl (λ fd. ground arith))
            | inr (x, q) ↦ rw (e, k, q) (inr (f, refl, (refl, k, refl, (x, q)), λ fd. ground arith))
          ]
    ]
  ]

  measures-Leaks :
      (bc : BootConfig) (start h : Trace)
      → Balanced start h
      → Balanced start
          (try_measure_files os
            (file_names bc)
            (try_measure_data os boot_config_pcr (bytestream bc) h).1).1
  unfolding measured
  measures-Leaks bc start h p =
      let P : Trace → Type 0 = Balanced start in
      (try_measure_files-Keeps os P (λ _ p. p) (λ _ _ _ p. p) (λ _ p. p) (λ _ _ p. p)
          (file_names bc)).at
        _
        ((try_measure_data-Keeps os P (λ _ p. p) (λ _ _ _ p. p) (λ _ p. p) (λ _ _ p. p)
            boot_config_pcr (bytestream bc)).at
          h p)

  OutcomeOfFiles-trans :
      (bc : BootConfig) (a b c : Trace)
      → Balanced a b
      → OutcomeOfFiles bc b c
      → OutcomeOfFiles bc a c
  OutcomeOfFiles-trans bc a b c p (inl q) = inl (λ fd. omega (arith, p fd, q fd))
  OutcomeOfFiles-trans bc a b c p (inr (k, e, f, q)) =
      inr (k, e, f, λ fd. omega (arith, p fd, q fd))

  boot_rest-Leaks : (bc : BootConfig) (h : Trace) → OutcomeOfFiles bc h (boot_rest os bc h).1
  unfolding boot_rest
  boot_rest-Leaks bc h = elim (Bool-cases (is_empty bc.kernel)) [
    | inr e ↦ rw e (boot_linux-Leaks bc h)
    | inl e ↦ elim (Bool-cases (is_empty bc.multiboot)) [
      | inr q ↦ rw (e, q) (inl (boot_multiboot-Leaks bc h))
      | inl q ↦ rw (e, q) (inl (reboot-Leaks h))
    ]
  ]

  -- `Boot` closes each handle as often as it was given it for a file that it opened, but for one
  -- case: where the initramfs is given and cannot be opened, the kernel's handle, and no other,
  -- stays open, and the failed call is the last one.
  pub boot-Leaks : (bc : BootConfig) (h : Trace) → OutcomeOfFiles bc h (boot os bc h).1
  unfolding measured try_measure_files
  boot-Leaks bc h = rw (boot-measured os bc h) (
      OutcomeOfFiles-trans bc h (measured os bc h) _ (measures-Leaks bc h h (λ fd. omega arith))
        (boot_rest-Leaks bc (measured os bc h)))
